-- ===== src/VoiceData/Portability.antt =====
-- What a paged export contains.
use apm.Shared.{ℕ, ◌<◌, ◌≡◌, ap, true, none, List, String, arith, length, map}
use mathlib.Core.List.{Perm}
use apm.Sessions.Repository.{Transcript}
use apm.VoiceData.Rows.{VoiceTables, Debrief, VocabularyEntry, ReviewItem}
use apm.VoiceData.Pages.{Order, by_id, by_pair, page, order_by, keyset_pages}
use apm.VoiceData.Paging.{keyset_pages-all}
use apm.VoiceData.Ordering.{IsUnique, order_by-Increasing, order_by-Perm, length-order_by}
use apm.VoiceData.Export.{
  Joined, export_page_size, session_key, transcript_rows, debrief_rows, vocabulary_rows,
  review_rows, utterances_of, debrief_out, word_out, review_out, stream_utterances, stream_debriefs,
  stream_vocabulary, stream_review_items,
}

module _ {K R : Type 0} (order : Order K) (key : R → K) (rows : List R) (fuel : ℕ) where
  pub sorted_pages :
      IsUnique order key rows
      → length rows < fuel
      → keyset_pages order key fuel
          (λ i cursor. page order key export_page_size cursor (order_by order key rows))
          export_page_size
          0
          none
        ≡ (order_by order key rows, true)
  sorted_pages unique enough =
      keyset_pages-all order key (order_by order key rows) export_page_size
        (order_by-Increasing order key rows unique) (omega arith) fuel
        (let e = length-order_by order key rows in omega (arith, e))

module _ (isoformat : ℕ → String) (fuel : ℕ) (t : VoiceTables) (user_id : ℕ) where
  -- With no change of the tables meanwhile, sessions with unique identifiers and one page more than
  -- there are transcripts, the stream of utterances ends, and holds the learner's own turns of all
  -- the user's transcripts, each transcript once, in an order of these.
  pub stream_utterances-all :
      IsUnique by_pair session_key (transcript_rows t user_id)
      → length (transcript_rows t user_id) < fuel
      → (rows : List (Joined Transcript)) × Perm rows (transcript_rows t user_id)
        × (stream_utterances isoformat fuel (λ i. t) user_id ≡ (utterances_of isoformat rows, true))
  unfolding stream_utterances
  stream_utterances-all unique enough =
      let rows = transcript_rows t user_id in
      (
        order_by by_pair session_key rows,
        order_by-Perm by_pair session_key rows,
        ap (λ p. (utterances_of isoformat p.0, p.1))
            (sorted_pages by_pair session_key rows fuel unique enough),
      )

  -- The same of the debriefs.
  pub stream_debriefs-all :
      IsUnique by_pair session_key (debrief_rows t user_id)
      → length (debrief_rows t user_id) < fuel
      → (rows : List (Joined Debrief)) × Perm rows (debrief_rows t user_id)
        × (stream_debriefs isoformat fuel (λ i. t) user_id
            ≡ (map (debrief_out isoformat) rows, true))
  unfolding stream_debriefs
  stream_debriefs-all unique enough =
      let rows = debrief_rows t user_id in
      (
        order_by by_pair session_key rows,
        order_by-Perm by_pair session_key rows,
        ap (λ p. (map (debrief_out isoformat) p.0, p.1))
            (sorted_pages by_pair session_key rows fuel unique enough),
      )

  -- The same of the vocabulary, on the identifiers of its rows.
  pub stream_vocabulary-all :
      IsUnique by_id (λ (e : VocabularyEntry). e.id) (vocabulary_rows t user_id)
      → length (vocabulary_rows t user_id) < fuel
      → (rows : List VocabularyEntry) × Perm rows (vocabulary_rows t user_id)
        × (stream_vocabulary isoformat fuel (λ i. t) user_id
            ≡ (map (word_out isoformat) rows, true))
  unfolding stream_vocabulary
  stream_vocabulary-all unique enough =
      let rows = vocabulary_rows t user_id in
      (
        order_by by_id (λ (e : VocabularyEntry). e.id) rows,
        order_by-Perm by_id (λ (e : VocabularyEntry). e.id) rows,
        ap (λ p. (map (word_out isoformat) p.0, p.1))
            (sorted_pages by_id (λ (e : VocabularyEntry). e.id) rows fuel unique enough),
      )

  -- The same of the review items.
  pub stream_review_items-all :
      IsUnique by_id (λ (r : ReviewItem). r.id) (review_rows t user_id)
      → length (review_rows t user_id) < fuel
      → (rows : List ReviewItem) × Perm rows (review_rows t user_id)
        × (stream_review_items isoformat fuel (λ i. t) user_id
            ≡ (map (review_out isoformat) rows, true))
  unfolding stream_review_items
  stream_review_items-all unique enough =
      let rows = review_rows t user_id in
      (
        order_by by_id (λ (r : ReviewItem). r.id) rows,
        order_by-Perm by_id (λ (r : ReviewItem). r.id) rows,
        ap (λ p. (map (review_out isoformat) p.0, p.1))
            (sorted_pages by_id (λ (r : ReviewItem). r.id) rows fuel unique enough),
      )
