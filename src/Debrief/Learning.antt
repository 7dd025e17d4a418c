-- ===== src/Debrief/Learning.antt =====
-- What a debrief changes of the learner: the level and the memory that `_persist_core` of
-- backend/app/features/debrief/service.py stages, row by row.
use apm.Shared.{ℕ, ◌≡◌, refl, List, [], ◌∷◌, ◌==◌, arith, map, not, ◌&&◌, if◌then◌else◌}
use apm.Shared.Table.{update_where}
use apm.Progression.{next_cefr_level}
use apm.Database.Models.{User}
use apm.Sessions.Repository.{Tables, LearnerProfile, is_user}
use apm.Conversation.Prompt.{Text, is_empty, strip_persistent_instructions}
use apm.Debrief.Analyzer.{DebriefResult}
use apm.Debrief.{details_of, with_memory, is_profile, stage_core}

module _ (text : Text) (user_id : ℕ) where
  -- A debrief moves the level of the user one step towards its estimate, and keeps a memory in the user's
  -- profile: the summary and the recurring kinds of error, if these are not empty.
  abbrev pub levelled : DebriefResult → User → User
  levelled r u =
      if u.id == user_id
      then record u { cefr_level = next_cefr_level u.cefr_level r.cefr_estimate }
      else u

  abbrev pub remembering : DebriefResult → LearnerProfile → LearnerProfile
  remembering r p =
      let said = details_of text r.summary r.errors in
      if (p.user_id == user_id) && not (is_empty said)
      then record p { memory_summary = strip_persistent_instructions text said 500 }
      else p

  abbrev pub learnt : DebriefResult → Tables → Tables
  learnt r t = record t {
    users = map (levelled r) t.users;
    profiles = map (remembering r) t.profiles;
  }

  update_users :
      (r : DebriefResult) (us : List User)
      → update_where
          (is_user user_id)
          (λ u. record u { cefr_level = next_cefr_level u.cefr_level r.cefr_estimate })
          us
        ≡ map (levelled r) us
  update_users r [] = refl
  update_users r (u ∷ us) = ground (arith, update_users r us)

  update_profiles :
      (r : DebriefResult) (ps : List LearnerProfile)
      → update_where (is_profile text user_id) (with_memory text r.summary r.errors) ps
        ≡ map (remembering r) ps
  unfolding with_memory
  update_profiles r [] = refl
  update_profiles r (p ∷ ps) = ground (arith, update_profiles r ps)

  pub stage_core-learnt :
      (r : DebriefResult) (t : Tables) → stage_core text user_id r t ≡ learnt r t
  stage_core-learnt r t = rw (update_users r t.users, update_profiles r t.profiles) refl
