-- ===== src/Sentiment/News/Counts.antt =====
-- What the keyword analyzer's verdict depends on, and when the news provider asks its analyzer.
use Prim.Native.Nat.{max}
use mathlib.Core.Path.{ap₂}
use outbound_api.Prelude.{
  ℕ, ◌+◌, ◌*◌, ◌≤◌, ◌<◌, ◌≡◌, ◌⊎◌, inl, inr, refl, ap, ◌∙◌, Bool, true, false, Bool-cases, ◌&&◌,
  ◌||◌, Option, none, some, String, List, [], ◌∷◌, ◌++◌, arith, ltb, leb, ◌==◌, if◌then◌else◌,
  length,
}
use outbound_api.Sentiment.News.{
  News, Result, ArticleAnalyzer, insufficient, score_articles, news_analyze, positive_keywords,
  negative_keywords, contains, add_hits, text_of, count_keywords, conclude_counts, keyword_analyze,
}

-- How many keywords of the list a text contains.
abbrev pub hits : String → List String → ℕ
hits text [] = 0
hits text (keyword ∷ rest) = (if contains text keyword then 1 else 0) + hits text rest

add_hits-hits :
    (text : String) (keywords : List String) (score : ℕ)
    → add_hits text keywords score ≡ score + hits text keywords
unfolding add_hits
add_hits-hits text [] score = omega arith
add_hits-hits text (keyword ∷ rest) score = elim (Bool-cases (contains text keyword)) [
  | inl hit ↦ rw (hit, add_hits-hits text rest (score + 1)) (omega arith)
  | inr miss ↦ rw (miss, add_hits-hits text rest score) (omega arith)
]

abbrev pair : ℕ → ℕ → ℕ × ℕ
pair a b = (a, b)

module _ (to_lower : String → String) where
  -- The hits of a list of keywords in all the articles.
  abbrev pub total_hits : List String → List News → ℕ
  total_hits keywords [] = 0
  total_hits keywords (article ∷ rest) =
      hits (text_of to_lower article) keywords + total_hits keywords rest

  total_hits-append :
      (keywords : List String) (xs ys : List News)
      → total_hits keywords (xs ++ ys) ≡ total_hits keywords xs + total_hits keywords ys
  total_hits-append keywords [] ys = omega arith
  total_hits-append keywords (article ∷ xs) ys = omega (arith, total_hits-append keywords xs ys)

  count_keywords-total :
      (articles : List News) (pos_score neg_score : ℕ)
      → count_keywords to_lower articles (pos_score, neg_score) ≡ (
        pos_score + total_hits positive_keywords articles,
        neg_score + total_hits negative_keywords articles,
      )
  unfolding count_keywords
  count_keywords-total [] pos_score neg_score = ap₂ pair (omega arith) (omega arith)
  count_keywords-total (article ∷ rest) pos_score neg_score =
      rw
        (
          add_hits-hits (text_of to_lower article) positive_keywords pos_score,
          add_hits-hits (text_of to_lower article) negative_keywords neg_score,
          count_keywords-total rest (pos_score + hits (text_of to_lower article) positive_keywords)
              (neg_score + hits (text_of to_lower article) negative_keywords),
        )
        (ap₂ pair (omega arith) (omega arith))

  count_keywords_from_zero :
      (articles : List News)
      → count_keywords to_lower articles (0, 0)
        ≡ (total_hits positive_keywords articles, total_hits negative_keywords articles)
  count_keywords_from_zero articles =
      count_keywords-total articles 0 0 ∙ ap₂ pair (omega arith) (omega arith)

  -- The verdict of an analyzer that answers.
  abbrev pub positive_of : {F : Type 0} → Option (Result F) → Option Bool
  positive_of none = none
  positive_of (some result) = some result.positive

  conclude_counts-positive :
      (F : Type 0) (symbol : String) (n p q : ℕ)
      → (conclude_counts {F = F} symbol n (p, q)).positive ≡ leb (2 * q) (3 * p)
  unfolding conclude_counts
  conclude_counts-positive F symbol n p q = ground arith

  -- The keyword analyzer never fails, and its verdict is positive exactly if the articles contain at
  -- least two positive keywords for every three negative ones, each keyword counted once for every
  -- article that contains it; so articles with no keyword at all are positive.
  pub keyword_analyze-positive :
      (F : Type 0) (symbol : String) (articles : List News)
      → positive_of (keyword_analyze to_lower {F = F} symbol articles)
        ≡ some (
            leb
              (2 * total_hits negative_keywords articles)
              (3 * total_hits positive_keywords articles))
  unfolding keyword_analyze
  keyword_analyze-positive F symbol articles =
      rw (count_keywords_from_zero articles)
        (ap some (conclude_counts-positive F symbol (length articles) _ _))

  -- If the analyzer gives one verdict on each of two lists of articles, it gives it on both together.
  pub keyword_analyze-append :
      (F : Type 0) (symbol : String) (xs ys : List News) (verdict : Bool)
      → positive_of (keyword_analyze to_lower {F = F} symbol xs) ≡ some verdict
      → positive_of (keyword_analyze to_lower {F = F} symbol ys) ≡ some verdict
      → positive_of (keyword_analyze to_lower {F = F} symbol (xs ++ ys)) ≡ some verdict
  keyword_analyze-append F symbol xs ys verdict =
      rw
        (
          keyword_analyze-positive F symbol xs,
          keyword_analyze-positive F symbol ys,
          keyword_analyze-positive F symbol (xs ++ ys),
          total_hits-append positive_keywords xs ys,
          total_hits-append negative_keywords xs ys,
        )
        (λ h k. ground arith)

-- What a result of the news provider rests on: the news API answered, with too few articles for the
-- analyzer and then the result is the neutral one, or with enough and then it is the analyzer's.
abbrev pub Grounded :
    {F : Type 0} → ArticleAnalyzer F → ℕ → Option (List News) → String → Result F → Type 0
Grounded inner min_articles none symbol result = ⊥
Grounded inner min_articles (some articles) symbol result =
    (length articles < max 1 min_articles) × (result ≡ insufficient symbol (length articles))
    ⊎ (max 1 min_articles ≤ length articles) × (inner symbol articles ≡ some result)

score_articles-Grounded :
    {F : Type 0} (inner : ArticleAnalyzer F) (min_articles : ℕ) (symbol : String)
    (news : Option (List News)) (result : Result F)
    → score_articles inner min_articles symbol news ≡ some result
    → Grounded inner min_articles news symbol result
unfolding score_articles
score_articles-Grounded inner min_articles symbol none result e = cc
score_articles-Grounded inner min_articles symbol (some articles) result e =
    elim (Bool-cases
      (length articles == 0 || (ltb 0 min_articles && ltb (length articles) min_articles))) [
        | inl few ↦
            let answer : some (insufficient symbol (length articles)) ≡ some result = rw few at e in
            inl (ground arith, cc)
        | inr enough ↦ inr (ground arith, rw enough at e)
      ]

-- The news provider is fail-closed: it gives a result only if its context is not cancelled and the
-- news API answers. The result is the neutral one if there are no articles or fewer than the
-- minimum, and otherwise exactly the analyzer's.
pub news_analyze-Grounded :
    {F : Type 0} (inner : ArticleAnalyzer F) (min_articles : ℕ) (cancelled : Bool)
    (get_news : String → Option (List News)) (symbol : String) (result : Result F)
    → news_analyze inner min_articles cancelled get_news symbol ≡ some result
    → (cancelled ≡ false) × Grounded inner min_articles (get_news symbol) symbol result
unfolding news_analyze
news_analyze-Grounded inner min_articles true get_news symbol result e = cc
news_analyze-Grounded inner min_articles false get_news symbol result e =
    (refl, score_articles-Grounded inner min_articles symbol (get_news symbol) result e)
