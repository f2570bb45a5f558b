-- ===== src/Sentiment.antt =====
-- internal/sentiment: the providers that decide whether the news of a symbol allow a buy.
pub mod Cached
pub mod News
pub mod Llm
