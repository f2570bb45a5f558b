-- ===== src/Sentiment/Llm.antt =====
-- internal/sentiment/llm.go. The packages json, net/http and io are a record of parameters: what they
-- answer, `none` for their error. A body of a response is a list of bytes.
pub mod Replies
use Prim.Native.String.{◌++◌ as str_append}
use outbound_api.Prelude.{
  ℕ, ◌+◌, Bool, true, false, not, ◌&&◌, ◌||◌, Option, none, some, String, str_eq, List, [], ◌∷◌,
  ◌++◌, leb, ◌==◌, if◌then◌else◌, length, take,
}
use outbound_api.Prelude.Fallible.{Fallible, success, failure, ◌>>=◌, ◌>>◌, or_fail, guard}
use outbound_api.Sentiment.News.{News, Result, reported, llm_text}

abbrev pub Bytes : Type 0
Bytes = List ℕ

pub record ChatMessage : Type 0 where
  pub role : String
  pub content : String

-- `Temperature` is a whole number of hundredths.
pub record ChatRequest : Type 0 where
  pub model : String
  pub messages : List ChatMessage
  pub response_format : String
  pub temperature : ℕ

-- The contents of `Choices` in order, and the message of `Error` if there is one.
pub record ChatResponse : Type 0 where
  pub choices : List String
  pub error : Option String

pub record LlmSentimentResponse (F : Type 0) : Type 0 where
  pub label : String
  pub score : F
  pub reasoning : String

pub record HttpRequest : Type 0 where
  pub url : String
  pub content_type : String
  pub authorization : String
  pub body : Bytes

-- `body` is what io.ReadAll gives.
pub record HttpResponse : Type 0 where
  pub status_code : ℕ
  pub body : Option Bytes

-- What the packages answer: json.Marshal, http.NewRequestWithContext, `Do` of the HTTP client,
-- json.Unmarshal into the two types, strings.TrimSpace and the decimal print of %d.
pub record Packages (F : Type 0) : Type 0 where
  pub marshal : ChatRequest → Option Bytes
  pub accepts_url : String → Bool
  pub do_request : HttpRequest → Option HttpResponse
  pub unmarshal_chat : Bytes → Option ChatResponse
  pub unmarshal_sentiment : String → Option (LlmSentimentResponse F)
  pub trim_space : String → String
  pub print_int : ℕ → String

pub record LlmAnalyzer : Type 0 where
  pub base_url : String
  pub api_key : String
  pub model : String

-- `strings.TrimRight(url, "/")`
unfoldable pub trim_right_slashes : String → String
trim_right_slashes String.[] = ""
trim_right_slashes (String.◌∷◌ c s) =
    let rest = trim_right_slashes s in
    if str_eq rest "" && str_eq (String.◌∷◌ c "") "/" then "" else String.◌∷◌ c rest

-- `NewLLMAnalyzer`
unfoldable pub new_llm_analyzer : String → String → String → LlmAnalyzer
unfolding trim_right_slashes
new_llm_analyzer base_url api_key model = record {
  base_url = trim_right_slashes base_url;
  api_key = api_key;
  model = model;
}

pub data Failure : Type 0 where
  marshal_request build_request http_request read_body : Failure
  unexpected_status : ℕ → Bytes → Failure
  unmarshal_response unmarshal_payload empty_choices : Failure
  api_error unexpected_label : String → Failure

-- `truncate`: "…" is three bytes.
unfoldable pub truncate : Bytes → ℕ → Bytes
truncate s n = if leb (length s) n then s else take n s ++ (0xE2 ∷ 0x80 ∷ 0xA6 ∷ [])

abbrev pub system_prompt : String
system_prompt =
    "You are a financial news sentiment analyst. Return ONLY a JSON object with fields: \"label\" (one of \"positive\", \"neutral\", \"negative\"), \"score\" (float 0.0=fully negative to 1.0=fully positive), \"reasoning\" (one-sentence explanation). No markdown, no extra fields."

infixr 65 ◌<>◌
abbrev ◌<>◌ : String → String → String
a <> b = str_append a b

-- `if len(Choices) == 0`, and the first choice.
unfoldable pub first_choice : List String → Fallible Failure String
first_choice [] = failure empty_choices
first_choice (content ∷ rest) = success content

unfoldable pub no_api_error : Option String → Fallible Failure (Unit {0})
no_api_error none = success tt
no_api_error (some message) = failure (api_error message)

abbrev pub is_label : String → Bool
is_label label = str_eq label "positive" || str_eq label "neutral" || str_eq label "negative"

-- Only "negative" vetoes.
abbrev pub result_of : {F : Type 0} → LlmSentimentResponse F → Result F
result_of sent = record {
  positive = not (str_eq sent.label "negative");
  score = reported sent.score;
  reasoning = llm_text sent.reasoning;
}

module _ {F : Type 0} (p : Packages F) where
  abbrev summary_of : String → String
  summary_of summary = if str_eq summary "" then "(no summary)" else summary

  -- The loop over the articles, from the number of the first one.
  unfoldable pub article_lines : ℕ → List News → String
  article_lines i [] = ""
  article_lines i (a ∷ rest) =
      p.print_int i
      <> ". "
      <> p.trim_space a.headline
      <> " — "
      <> summary_of (p.trim_space a.summary)
      <> "\n"
      <> article_lines (i + 1) rest

  -- `buildPrompt`
  unfoldable pub build_prompt : String → List News → String
  unfolding article_lines
  build_prompt symbol articles =
      "Analyze the sentiment of the following "
      <> p.print_int (length articles)
      <> " recent news articles about "
      <> symbol
      <> ":\n\n"
      <> article_lines 1 articles

  unfoldable pub chat_request : LlmAnalyzer → String → List News → ChatRequest
  unfolding build_prompt
  chat_request l symbol articles = record {
    model = l.model;
    messages =
        record { role = "system"; content = system_prompt }
        ∷ record { role = "user"; content = build_prompt symbol articles }
        ∷ [];
    response_format = "json_object";
    temperature = 0;
  }

  unfoldable pub http_request_of : LlmAnalyzer → Bytes → HttpRequest
  http_request_of l body = record {
    url = l.base_url <> "/chat/completions";
    content_type = "application/json";
    authorization = "Bearer " <> l.api_key;
    body = body;
  }

  -- What is read out of the first choice.
  unfoldable pub read_payload : String → Fallible Failure (Result F)
  read_payload content = do
    sent ← or_fail (p.unmarshal_sentiment content) unmarshal_payload
    guard (is_label sent.label) (unexpected_label sent.label)
    success (result_of sent)

  unfoldable pub read_response : HttpResponse → Fallible Failure (Result F)
  read_response resp = do
    body ← or_fail resp.body read_body
    guard (resp.status_code == 200) (unexpected_status resp.status_code (truncate body 200))
    chat ← or_fail (p.unmarshal_chat body) unmarshal_response
    no_api_error chat.error
    content ← first_choice chat.choices
    read_payload content

  -- `Analyze` of llmAnalyzer.
  unfoldable pub llm_analyze : LlmAnalyzer → String → List News → Fallible Failure (Result F)
  llm_analyze l symbol articles = do
    body ← or_fail (p.marshal (chat_request l symbol articles)) marshal_request
    guard (p.accepts_url (http_request_of l body).url) build_request
    resp ← or_fail (p.do_request (http_request_of l body)) http_request
    read_response resp
