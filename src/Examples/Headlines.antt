-- ===== src/Examples/Headlines.antt =====
-- News and the verdicts on them.
use outbound_api.Prelude.{
  ℕ, ◌*◌, ◌≡◌, refl, true, false, Option, none, some, String, str_eq, List, [], ◌∷◌, leb,
}
use outbound_api.Sentiment.News.{
  News, Result, reported, llm_text, insufficient, contains, add_hits, count_keywords,
  conclude_counts, keyword_analyze, news_analyze, score_articles, positive_keywords,
  negative_keywords,
}
use outbound_api.Sentiment.News.Counts.{
  total_hits, positive_of, keyword_analyze-positive, Grounded, news_analyze-Grounded,
}
use outbound_api.Sentiment.Llm.{
  Bytes, Packages, LlmAnalyzer, new_llm_analyzer, llm_analyze, read_response, read_payload,
  first_choice, no_api_error, http_request_of,
}
use outbound_api.Sentiment.Llm.Replies.{IsReply, llm_analyze-IsReply}

-- Lower-case texts stay as they are.
abbrev as_is : String → String
as_is t = t

abbrev good : News
good = record { headline = "profit beats estimates"; summary = "strong growth" }

abbrev bad : News
bad = record { headline = "shares drop"; summary = "investigation into fraud" }

keyword_analyze-positive_example :
    positive_of as_is (keyword_analyze as_is {F = ℕ} "AAPL" (good ∷ bad ∷ []))
    ≡ some (
        leb
          (2 * total_hits as_is negative_keywords (good ∷ bad ∷ []))
          (3 * total_hits as_is positive_keywords (good ∷ bad ∷ [])))
keyword_analyze-positive_example = keyword_analyze-positive as_is ℕ "AAPL" (good ∷ bad ∷ [])

good_is_positive : positive_of as_is (keyword_analyze as_is {F = ℕ} "AAPL" (good ∷ [])) ≡ some true
unfolding keyword_analyze count_keywords conclude_counts add_hits contains
good_is_positive = refl

-- "falls" contains "fall": one word counts twice.
falls_counts_twice :
    total_hits as_is negative_keywords (record { headline = "it falls"; summary = "" } ∷ []) ≡ 2
unfolding contains
falls_counts_twice = refl

abbrev one_article : String → Option (List News)
one_article symbol = some (good ∷ [])

news_analyze-Grounded_example :
    (false ≡ false)
    × Grounded {F = ℕ} (keyword_analyze as_is) 3 (one_article "AAPL") "AAPL" (insufficient "AAPL" 1)
unfolding news_analyze score_articles
news_analyze-Grounded_example =
    news_analyze-Grounded (keyword_analyze as_is) 3 false one_article "AAPL" (insufficient "AAPL" 1)
      refl

abbrev json : Bytes
json = b'{' ∷ b'}' ∷ []

-- A service that answers every request with one label and the score 7.
abbrev labelling : String → Packages ℕ
labelling label = record {
  marshal = λ request. some json;
  accepts_url = λ url. str_eq url "https://api.deepseek.com/chat/completions";
  do_request = λ request. some (record { status_code = 200; body = some json });
  unmarshal_chat = λ body. some (record { choices = "{}" ∷ []; error = none });
  unmarshal_sentiment =
      λ content. some (record { label = label; score = 7; reasoning = "rumours" });
  trim_space = λ t. t;
  print_int = λ n. "1";
}

abbrev deep_seek : LlmAnalyzer
unfolding new_llm_analyzer
deep_seek = new_llm_analyzer "https://api.deepseek.com/" "key" "deepseek-v4-flash"

abbrev veto : Result ℕ
veto = record { positive = false; score = reported 7; reasoning = llm_text "rumours" }

llm_analyze-IsReply_example : IsReply (labelling "negative") deep_seek "AAPL" (bad ∷ []) veto
unfolding llm_analyze read_response read_payload first_choice no_api_error http_request_of deep_seek
llm_analyze-IsReply_example =
    llm_analyze-IsReply (labelling "negative") deep_seek "AAPL" (bad ∷ []) veto refl
