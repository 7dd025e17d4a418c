-- ===== src/Purge/Retention.antt =====
-- What the purge keeps, and that it is done as a whole or not at all.
use apm.Shared.{
  ℕ, ◌≡◌, ◌⊎◌, inl, inr, refl, sym, ◌∙◌, Bool, true, false, ◌||◌, not, ◌+◌, ◌-◌, ◌*◌, List, [], ◌∷◌,
  length, leb, arith,
}
use apm.Shared.Table.{count_where-delete, delete_where, count_where, select_where}
use mathlib.Core.Path.{subst}
use apm.VoiceData.{Statement}
use apm.Clock.{minute, day}
use apm.Database.{Db, IsClean}
use apm.Purge.{
  put_tokens, put_keys, put_events, delete_tokens, delete_keys, delete_events, PurgeTables, Counts,
  Purged, nothing, is_exempt, is_outdated, is_expired, is_forgotten, counted, commit_all,
  purge_events, purge_keys, purge_expired_entries,
}

module _ {A : Type 0} where
  delete_where-select :
      (p q : A → Bool) (rs : List A)
      → ((r : A) → q r ≡ not (p r))
      → delete_where p rs ≡ select_where q rs
  delete_where-select p q [] h = refl
  delete_where-select p q (r ∷ rs) h = ground (arith, h r, delete_where-select p q rs h)

-- The rows that are kept: live tokens, revoked ones too, keys of the last day, and events of the last
-- thirty days or of an activation.
abbrev pub kept_rows : ℕ → PurgeTables → PurgeTables
kept_rows now t = record {
  refresh_tokens = select_where (λ r. leb now r.expires_at) t.refresh_tokens;
  idempotency_keys =
      select_where (λ k. leb (now - 24 * (60 * minute)) k.created_at) t.idempotency_keys;
  analytics_events =
      select_where (λ e. leb (now - 30 * day) e.created_at || is_exempt e.name) t.analytics_events;
}

-- The counts are of the rows that the purge took away.
abbrev pub Counted : Counts → PurgeTables → PurgeTables → Type 0
Counted c old new =
    (c.refresh_tokens + length new.refresh_tokens ≡ length old.refresh_tokens)
    × (c.idempotency_keys + length new.idempotency_keys ≡ length old.idempotency_keys)
    × (c.analytics_events + length new.analytics_events ≡ length old.analytics_events)

-- The tables after the three deletes.
abbrev swept : ℕ → PurgeTables → PurgeTables
swept now t = record {
  refresh_tokens = delete_where (is_expired now) t.refresh_tokens;
  idempotency_keys = delete_where (is_forgotten now) t.idempotency_keys;
  analytics_events = delete_where (is_outdated now) t.analytics_events;
}

swept-kept_rows : (now : ℕ) (t : PurgeTables) → swept now t ≡ kept_rows now t
swept-kept_rows now t =
    let a =
      delete_where-select (is_expired now) (λ r. leb now r.expires_at) t.refresh_tokens
        (λ r. ground arith) in
    let b =
      delete_where-select (is_forgotten now) (λ k. leb (now - 24 * (60 * minute)) k.created_at)
        t.idempotency_keys (λ r. ground arith) in
    let c =
      delete_where-select (is_outdated now)
        (λ e. leb (now - 30 * day) e.created_at || is_exempt e.name) t.analytics_events
        (λ r. ground arith) in
    rw (a, b, c) refl

-- One of the statements to come fails.
abbrev pub fails : List Bool → Bool
fails [] = false
fails (b ∷ bs) = b || fails bs

-- A purge either leaves the tables alone, as a statement fails, or has kept and counted what it should.
abbrev pub AllOrNothing : ℕ → PurgeTables → List Bool → Purged → Type 0
AllOrNothing now old faults res =
    IsClean res.1
    × (((res.1.committed ≡ old) × (fails faults ≡ true))
        ⊎ ((res.1.committed ≡ kept_rows now old) × Counted res.0 old res.1.committed))

swept-Counted :
    (now : ℕ) (t : PurgeTables)
    → Counted
        (record {
          refresh_tokens = count_where (is_expired now) t.refresh_tokens;
          idempotency_keys = count_where (is_forgotten now) t.idempotency_keys;
          analytics_events = count_where (is_outdated now) t.analytics_events;
        })
        t
        (swept now t)
swept-Counted now t = (
  count_where-delete (is_expired now) t.refresh_tokens,
  count_where-delete (is_forgotten now) t.idempotency_keys,
  count_where-delete (is_outdated now) t.analytics_events,
)

-- A delete fails and the purge with it, or the purge goes on with its count.
counted-cases :
    (P : Purged → Type 0) (s : Statement PurgeTables) (put : ℕ → Counts → Counts)
    (next : Counts → Db PurgeTables → Purged) (c : Counts) (old t : PurgeTables) (fs : List Bool)
    → (fails fs ≡ true
        → (gs : List Bool) → P (c, record { committed = old; working = old; faults = gs }))
    → ((gs : List Bool)
        → fails gs ≡ fails fs
        → P (
            next
              (put (s.rowcount t) c)
              (record { committed = old; working = s.change t; faults = gs })))
    → P (counted s put next c (record { committed = old; working = t; faults = fs }))
counted-cases P s put next c old t [] h k = k [] refl
counted-cases P s put next c old t (true ∷ fs) h k = h refl fs
counted-cases P s put next c old t (false ∷ fs) h k = k fs refl

commit_all-cases :
    (P : Purged → Type 0) (c : Counts) (old t : PurgeTables) (fs : List Bool)
    → (fails fs ≡ true
        → (gs : List Bool) → P (c, record { committed = old; working = old; faults = gs }))
    → ((gs : List Bool)
        → fails gs ≡ fails fs
        → P (c, record { committed = t; working = t; faults = gs }))
    → P (commit_all c (record { committed = old; working = t; faults = fs }))
commit_all-cases P c old t [] h k = k [] refl
commit_all-cases P c old t (true ∷ fs) h k = h refl fs
commit_all-cases P c old t (false ∷ fs) h k = k fs refl

purge_all-AllOrNothing :
    (now : ℕ) (old : PurgeTables) (fs : List Bool)
    → AllOrNothing now old fs
        (purge_expired_entries now (record { committed = old; working = old; faults = fs }))
unfolding purge_expired_entries
purge_all-AllOrNothing now old fs =
    let P : Purged → Type 0 = AllOrNothing now old fs in
    let t1 = (delete_tokens now).change old in
    let t2 = (delete_keys now).change t1 in
    let c1 = put_tokens ((delete_tokens now).rowcount old) nothing in
    let c2 = put_keys ((delete_keys now).rowcount t1) c1 in
    let c3 = put_events ((delete_events now).rowcount t2) c2 in
    counted-cases P (delete_tokens now) put_tokens (purge_keys now) nothing old old fs
      (λ e gs. (refl, inl (refl, e)))
      (λ f1 q1.
        counted-cases P (delete_keys now) put_keys (purge_events now) c1 old t1 f1
          (λ e gs. (refl, inl (refl, sym q1 ∙ e)))
          (λ f2 q2.
            counted-cases P (delete_events now) put_events commit_all c2 old t2 f2
              (λ e gs. (refl, inl (refl, sym q1 ∙ (sym q2 ∙ e))))
              (λ f3 q3.
                commit_all-cases P c3 old ((delete_events now).change t2) f3
                  (λ e gs. (refl, inl (refl, sym q1 ∙ (sym q2 ∙ (sym q3 ∙ e)))))
                  (λ f4 q4. (refl, inr (swept-kept_rows now old, swept-Counted now old))))))

-- Whichever statements of a purge fail, it returns, with nothing pending: either one of those to come
-- fails and the committed tables are as they were, or they hold just the rows that are kept (unexpired refresh tokens, revoked ones
-- too; idempotency keys of the last 24 hours; analytics events of the last 30 days, and activations of
-- any age), and the counts are of the rows taken away. At the start nothing is pending.
pub purge_expired_entries-AllOrNothing :
    (now : ℕ) (db : Db PurgeTables)
    → IsClean db
    → AllOrNothing now db.committed db.faults (purge_expired_entries now db)
purge_expired_entries-AllOrNothing now db clean =
    subst
      (λ t. AllOrNothing now db.committed db.faults (
        purge_expired_entries now
          (record { committed = db.committed; working = t; faults = db.faults })))
      (sym clean) (purge_all-AllOrNothing now db.committed db.faults)
