-- ===== src/IdentityPolicy/Replay/SetNx.antt =====
-- The shared replay cache accepts what its store records for the first time.
use mathlib.Core.Path.{subst}
use session_bound_agent_iden.Common.{
  sym, ap, ◌∙◌, inl, inr, refl, Option, ◌≡◌, ◌↔◌, ◌⊎◌, ◌<◌, true, false, none, some, arith, ok,
}
use session_bound_agent_iden.GoString.{Bytes, is_blank}
use session_bound_agent_iden.GoTime.{Time, sub}
use session_bound_agent_iden.IdentityPolicy.Replay.{SetNxReplayCache, SetNxStore, set_nx_mark_used}

module _ {S : Type 0} (store : SetNxStore S) where
  -- The key is not empty, its expiry lies ahead of the clock, and the store records it now.
  pub record Recorded (now : Time) (s : S) (key : Bytes) (expires_at : Time) : Type 0 where
    pub key_some : is_blank key ≡ false
    pub ahead : now < expires_at
    pub answer : (store.set_nx s key (sub expires_at now)).1 ≡ ok true

  store_accepts_iff :
      (now : Time) (s : S) (key : Bytes) (expires_at : Time)
      → ((set_nx_mark_used (some (record { store = some store })) now s key expires_at).1 ≡ none)
        ↔ Recorded now s key expires_at
  unfolding set_nx_mark_used
  store_accepts_iff now s key expires_at = (
    λ h. record { key_some = ground arith; ahead = ground arith; answer = ground arith },
    λ r. ground (arith, r.key_some, r.ahead, r.answer),
  )

  -- The state of the store changes by `SetNX` alone, and only with a live expiry: every other
  -- call leaves it as it was.
  pub store-set_nx_mark_used :
      (now : Time) (s : S) (key : Bytes) (expires_at : Time)
      → ((set_nx_mark_used (some (record { store = some store })) now s key expires_at).0 ≡ s)
        ⊎ ((now < expires_at)
            × (is_blank key ≡ false)
            × ((set_nx_mark_used (some (record { store = some store })) now s key expires_at).0
                ≡ (store.set_nx s key (sub expires_at now)).0))
  unfolding set_nx_mark_used
  store-set_nx_mark_used now s key expires_at = ground arith

store_iff :
    {S : Type 0} (o : Option (SetNxStore S)) (now : Time) (s : S) (key : Bytes) (expires_at : Time)
    → ((set_nx_mark_used (some (record { store = o })) now s key expires_at).1 ≡ none)
      ↔ ((store : SetNxStore S) × (o ≡ some store) × Recorded store now s key expires_at)
unfolding set_nx_mark_used
store_iff none now s key expires_at = (λ h. cc, λ (store, given, r). cc)
store_iff (some store) now s key expires_at =
    let both = store_accepts_iff store now s key expires_at in
    (
      λ h. (store, refl, both.0 h),
      λ (other, given, r).
          let same : other ≡ store = ground arith in
          both.1 (subst (λ x. Recorded x now s key expires_at) same r),
    )

-- `SetNXReplayCache.MarkUsed` accepts exactly when the cache is nil, which accepts everything, or
-- it has a store, the key is not blank, its expiry lies ahead of the clock, and the store records
-- the key for the remaining lifetime.
pub set_nx_mark_used_iff :
    {S : Type 0} (c : Option (SetNxReplayCache S)) (now : Time) (s : S) (key : Bytes)
    (expires_at : Time)
    → ((set_nx_mark_used c now s key expires_at).1 ≡ none) ↔ (
        (c ≡ none)
        ⊎ ((d : SetNxReplayCache S) × (store : SetNxStore S) × (c ≡ some d)
            × (d.store ≡ some store)
            × Recorded store now s key expires_at))
unfolding set_nx_mark_used
set_nx_mark_used_iff none now s key expires_at = (λ h. inl refl, λ h. refl)
set_nx_mark_used_iff {S = S} (some d) now s key expires_at =
    let both = store_iff d.store now s key expires_at in
    (
      λ h. let (store, given, r) = both.0 h in inr (d, store, refl, given, r),
      λ h. elim h [
        | inl missing ↦ cc
        | inr (other, store, same, given, r) ↦
            let same' : other ≡ d = ground arith in
            both.1 (store, ap (λ (x : SetNxReplayCache S). x.store) (sym same') ∙ given, r)
      ],
    )
