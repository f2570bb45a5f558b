-- ===== src/Sentiment/Llm/Replies.antt =====
-- Which replies of the language model become a verdict.
use text.Mathlib.TextEquality.{eq_iff}
use outbound_api.Prelude.{
  ℕ, zero, suc, ◌+◌, ◌≤◌, ◌≡◌, ◌⊎◌, inl, inr, refl, ap, true, false, not, Bool-cases, Option, none,
  some, String, str_eq, List, [], ◌∷◌, ◌++◌, arith, leb, ==_iff, length, length-append, take,
}
use outbound_api.Prelude.Fallible.{
  success, OnSuccess, OnSuccess-success, OnSuccess-bind, OnSuccess-or_fail, OnSuccess-guard,
}
use outbound_api.Sentiment.News.{News, Result, reported, llm_text}
use outbound_api.Sentiment.Llm.{
  Bytes, ChatResponse, LlmSentimentResponse, HttpResponse, Packages, LlmAnalyzer, truncate,
  chat_request, http_request_of, first_choice, no_api_error, is_label, result_of, read_payload,
  read_response, llm_analyze,
}

no_api_error-none : (o : Option String) (u : Unit {0}) → no_api_error o ≡ success u → o ≡ none
unfolding no_api_error
no_api_error-none none u e = refl
no_api_error-none (some message) u e = cc

first_choice-cons :
    (choices : List String) (content : String)
    → first_choice choices ≡ success content
    → (others : List String) × (choices ≡ content ∷ others)
unfolding first_choice
first_choice-cons [] content e = cc
first_choice-cons (c ∷ others) content e = (others, cc)

label_cases :
    (label : String)
    → is_label label ≡ true
    → (label ≡ "positive") ⊎ (label ≡ "neutral") ⊎ (label ≡ "negative")
label_cases label h = elim (Bool-cases (str_eq label "positive")) [
  | inl e ↦ inl ((eq_iff label "positive").0 e)
  | inr e ↦ elim (Bool-cases (str_eq label "neutral")) [
    | inl e' ↦ inr (inl ((eq_iff label "neutral").0 e'))
    | inr e' ↦ inr (inr ((eq_iff label "negative").0 (rw (e, e') at h)))
  ]
]

passed_label :
    (label : String)
    → (label ≡ "positive") ⊎ (label ≡ "neutral")
    → not (str_eq label "negative") ≡ true
passed_label label (inl e) = rw e refl
passed_label label (inr e) = rw e refl

module _ {F : Type 0} (p : Packages F) (l : LlmAnalyzer) (symbol : String)
    (articles : List News) where
  -- A reply that carries a verdict: the one request of the articles got status 200, with no API
  -- error, and the first choice holds one of the three labels.
  pub record IsReply (result : Result F) : Type 0 where
    pub body : Bytes
    pub resp : HttpResponse
    pub text : Bytes
    pub chat : ChatResponse
    pub content : String
    pub others : List String
    pub sent : LlmSentimentResponse F
    pub marshaled : p.marshal (chat_request p l symbol articles) ≡ some body
    pub built : p.accepts_url (http_request_of p l body).url ≡ true
    pub answers : p.do_request (http_request_of p l body) ≡ some resp
    pub read : resp.body ≡ some text
    pub is_ok : resp.status_code ≡ 200
    pub parses : p.unmarshal_chat text ≡ some chat
    pub no_error : chat.error ≡ none
    pub chosen : chat.choices ≡ content ∷ others
    pub payload : p.unmarshal_sentiment content ≡ some sent
    pub label : (sent.label ≡ "positive") ⊎ (sent.label ≡ "neutral") ⊎ (sent.label ≡ "negative")
    pub vetoed : sent.label ≡ "negative" → result.positive ≡ false
    pub passed : (sent.label ≡ "positive") ⊎ (sent.label ≡ "neutral") → result.positive ≡ true
    pub score : result.score ≡ reported sent.score
    pub reasoning : result.reasoning ≡ llm_text sent.reasoning

  llm_analyze-OnSuccess : OnSuccess IsReply (llm_analyze p l symbol articles)
  unfolding llm_analyze read_response read_payload
  llm_analyze-OnSuccess = OnSuccess-or_fail IsReply _ _ _ λ body marshaled.
      OnSuccess-guard IsReply _ _ _ λ built.
        OnSuccess-or_fail IsReply _ _ _ λ (resp : HttpResponse) answers.
          OnSuccess-or_fail IsReply _ _ _ λ text read. OnSuccess-guard IsReply _ _ _ λ is_ok.
            OnSuccess-or_fail IsReply _ _ _ λ (chat : ChatResponse) parses.
              OnSuccess-bind IsReply _ _ λ done no_error.
                OnSuccess-bind IsReply _ _ λ content chosen.
                  OnSuccess-or_fail IsReply _ _ _ λ (sent : LlmSentimentResponse F) payload.
                    OnSuccess-guard IsReply _ _ (success (result_of sent)) λ label.
                      let (others, choices) = first_choice-cons chat.choices content chosen in
                      record {
                        body = body;
                        resp = resp;
                        text = text;
                        chat = chat;
                        content = content;
                        others = others;
                        sent = sent;
                        marshaled = marshaled;
                        built = built;
                        answers = answers;
                        read = read;
                        is_ok = (==_iff resp.status_code 200).0 is_ok;
                        parses = parses;
                        no_error = no_api_error-none chat.error done no_error;
                        chosen = choices;
                        payload = payload;
                        label = label_cases sent.label label;
                        vetoed = λ e. rw e refl;
                        passed = passed_label sent.label;
                        score = refl;
                        reasoning = refl;
                      }

  -- The analyzer is fail-closed: it gives a verdict only for a reply to its one request of the
  -- articles, with status 200, a body that parses, no API error, and a first choice whose payload
  -- has one of the three labels; the verdict is positive if that label is "positive" or "neutral", and
  -- not if it is "negative", and its score and its reasoning are those of the payload.
  pub llm_analyze-IsReply :
      (result : Result F) → llm_analyze p l symbol articles ≡ success result → IsReply result
  llm_analyze-IsReply result = OnSuccess-success IsReply _ result llm_analyze-OnSuccess

length-take_le : (n : ℕ) (s : Bytes) → length (take n s) ≤ n
length-take_le zero s = omega arith
length-take_le (suc n) [] = omega arith
length-take_le (suc n) (x ∷ s) = omega (arith, length-take_le n s)

take-take-append : (n : ℕ) (s t : Bytes) → n ≤ length s → take n (take n s ++ t) ≡ take n s
take-take-append zero s t h = refl
take-take-append (suc n) [] t h = absurd (omega arith)
take-take-append (suc n) (x ∷ s) t h = ap (λ r. x ∷ r) (take-take-append n s t (omega arith))

-- A truncated text is at most the three bytes of the ellipsis longer than the limit, and starts with
-- the bytes that the text has up to the limit.
pub truncate_bounds :
    (s : Bytes) (n : ℕ) → (length (truncate s n) ≤ n + 3) × (take n (truncate s n) ≡ take n s)
unfolding truncate
truncate_bounds s n = elim (Bool-cases (leb (length s) n)) [
  | inl short ↦ rw short (ground arith, refl)
  | inr long ↦ rw long (
    rw (length-append (take n s) (0xE2 ∷ 0x80 ∷ 0xA6 ∷ [])) (omega (arith, length-take_le n s)),
    take-take-append n s (0xE2 ∷ 0x80 ∷ 0xA6 ∷ []) (ground arith),
  )
]
