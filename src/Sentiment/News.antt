-- ===== src/Sentiment/News.antt =====
-- internal/sentiment/sentiment.go: the results, the provider that reads the news of the last day
-- before it asks an analyzer, and the analyzer that counts keywords. `to_lower` is strings.ToLower.
-- The text that fmt.Sprintf makes of a result is the data `Reasoning` that it prints.
pub mod Counts
use outbound_api.Prelude.{
  ℕ, ◌+◌, ◌*◌, Bool, true, false, ◌&&◌, ◌||◌, Option, none, some, String, List, [], ◌∷◌, ltb, leb,
  ◌==◌, if◌then◌else◌, length,
}
use text.Mathlib.Text.{find?}
use Prim.Native.String.{◌++◌ as str_append}

-- marketdata.News, as far as it is read.
pub record News : Type 0 where
  pub headline : String
  pub summary : String

pub data Reasoning : Type 0 where
  insufficient_news neutral_news : String → ℕ → Reasoning
  news_sentiment : String → ℕ → ℕ → ℕ → Reasoning
  llm_text : String → Reasoning

-- `Score`: 0.5, a quotient of two counts, or the number that a language model reports.
pub data Score (F : Type 0) : Type 0 where
  half : Score F
  share : ℕ → ℕ → Score F
  reported : F → Score F

-- sentiment.Result
pub record Result (F : Type 0) : Type 0 where
  pub positive : Bool
  pub score : Score F
  pub reasoning : Reasoning

-- `Analyze` of an ArticleAnalyzer; `none` is an error.
abbrev pub ArticleAnalyzer : Type 0 → Type 0
ArticleAnalyzer F = String → List News → Option (Result F)

module _ {F : Type 0} where
  abbrev pub insufficient : String → ℕ → Result F
  insufficient symbol n = record {
    positive = true;
    score = half;
    reasoning = insufficient_news symbol n;
  }

  -- What is done with the answer of GetNews.
  unfoldable pub score_articles :
      ArticleAnalyzer F → ℕ → String → Option (List News) → Option (Result F)
  score_articles inner min_articles symbol none = none
  score_articles inner min_articles symbol (some articles) =
      let n = length articles in
      if n == 0 || (ltb 0 min_articles && ltb n min_articles)
      then some (insufficient symbol n)
      else inner symbol articles

  -- `Analyze` of alpacaNewsProvider: `cancelled` is `ctx.Err() != nil`, `get_news` what the news API
  -- answers for a symbol.
  unfoldable pub news_analyze :
      ArticleAnalyzer F → ℕ → Bool → (String → Option (List News)) → String → Option (Result F)
  unfolding score_articles
  news_analyze inner min_articles cancelled get_news symbol =
      if cancelled then none else score_articles inner min_articles symbol (get_news symbol)

abbrev pub positive_keywords : List String
positive_keywords =
    "beat" ∷ "exceeds" ∷ "surge" ∷ "soar" ∷ "rally" ∷ "gain" ∷ "upgrade" ∷ "strong" ∷ "growth"
    ∷ "profit" ∷ "revenue" ∷ "record" ∷ "bullish" ∷ "outperform" ∷ "rises" ∷ "jumps" ∷ "climbs"
    ∷ "boost" ∷ "positive" ∷ "buy" ∷ "overweight" ∷ "raises" ∷ "breakthrough" ∷ "partnership" ∷ []

abbrev pub negative_keywords : List String
negative_keywords =
    "miss" ∷ "fall" ∷ "drop" ∷ "plunge" ∷ "decline" ∷ "loss" ∷ "downgrade" ∷ "weak" ∷ "risk"
    ∷ "concern" ∷ "bearish" ∷ "crash" ∷ "cut" ∷ "lowered" ∷ "underperform" ∷ "falls" ∷ "slides"
    ∷ "tumbles" ∷ "warning" ∷ "fraud" ∷ "investigation" ∷ "lawsuit" ∷ "bankrupt" ∷ "recall"
    ∷ "layoffs" ∷ "sell" ∷ []

-- `strings.Contains(text, keyword)`
unfoldable pub contains : String → String → Bool
contains text keyword = elim (find? text keyword) [ none ↦ false | some i ↦ true ]

-- The loop over a list of keywords, from the score so far.
unfoldable pub add_hits : String → List String → ℕ → ℕ
add_hits text [] score = score
add_hits text (keyword ∷ rest) score =
    add_hits text rest (if contains text keyword then score + 1 else score)

-- The two results. `float64(pos) / float64(total) >= 0.4` is a comparison of fractions: both sides
-- round the quotient that they stand for, and two different quotients with denominators of up to
-- some thousands do not round to one float64.
unfoldable pub conclude_counts : {F : Type 0} → String → ℕ → ℕ × ℕ → Result F
conclude_counts symbol n (pos_score, neg_score) =
    let total = pos_score + neg_score in
    if total == 0
    then record { positive = true; score = half; reasoning = neutral_news symbol n }
    else record {
      positive = leb (4 * total) (10 * pos_score);
      score = share pos_score total;
      reasoning = news_sentiment symbol pos_score neg_score n;
    }

module _ (to_lower : String → String) where
  abbrev pub text_of : News → String
  text_of article = to_lower (str_append (str_append article.headline " ") article.summary)

  -- The loop over the articles: the scores after it, from those before it.
  unfoldable pub count_keywords : List News → ℕ × ℕ → ℕ × ℕ
  count_keywords [] scores = scores
  count_keywords (article ∷ rest) (pos_score, neg_score) = count_keywords rest (
    add_hits (text_of article) positive_keywords pos_score,
    add_hits (text_of article) negative_keywords neg_score,
  )

  -- `Analyze` of keywordAnalyzer, which does not fail.
  unfoldable pub keyword_analyze : {F : Type 0} → ArticleAnalyzer F
  unfolding count_keywords conclude_counts
  keyword_analyze symbol articles =
      some (conclude_counts symbol (length articles) (count_keywords articles (0, 0)))
