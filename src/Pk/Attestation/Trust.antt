-- ===== src/Pk/Attestation/Trust.antt =====
-- What it takes for a node to be trusted.
use df_fabric.Prelude.{
  ℕ, ◌+◌, String, List, [], ◌∷◌, true, false, ◌≡◌, ◌≢◌, inl, inr, refl, arith, ltb, filter, member,
  member-add, string_dec, Bool-cases, if◌then◌else◌,
}
use df_fabric.Prelude.Dict.{get-put}
use df_fabric.Prelude.Result.{ok, err}
use df_fabric.Pk.Attestation.{
  Attestor, Evidence, Verdict, untrusted, software, hardware, attestation_failed, replay_detected,
  attest, discard, known, level_of, verdict_on, verdict_ttl,
}

member-discard :
    (s : List String) (x y : String)
    → x ≢ y
    → member string_dec (discard s x) y ≡ member string_dec s y
unfolding discard filter member
member-discard [] x y n = refl
member-discard (z ∷ s) x y n = ground (arith, member-discard s x y n)

member-discard_self : (s : List String) (x : String) → member string_dec (discard s x) x ≡ false
unfolding discard filter member
member-discard_self [] x = refl
member-discard_self (z ∷ s) x = ground (arith, member-discard_self s x)

module _ (bind : Evidence → String) where
  -- Evidence with a spent nonce is refused and changes nothing. Fresh evidence spends its nonce
  -- whatever comes of it, so that evidence under it is refused from then on. If all its measurements
  -- are accepted the node is trusted until the verdict expires, as hardware or software, and not
  -- after; otherwise attestation fails and the node is untrusted at every tick, whatever verdicts
  -- it had. No other node's level changes.
  pub attest-level :
      (e : Evidence) (now : ℕ) (s : Attestor)
      → let (r, s') = attest bind e now s in
        (member string_dec s.spent_nonces e.nonce ≡ true → (r ≡ err replay_detected) × (s' ≡ s))
        × (member string_dec s.spent_nonces e.nonce ≡ false
            → ((e' : Evidence) (later : ℕ)
                → e'.nonce ≡ e.nonce
                → (attest bind e' later s').0 ≡ err replay_detected)
              × ((node : String) (t : ℕ) → node ≢ e.node → level_of node t s' ≡ level_of node t s)
              × (known s e ≡ true
                  → (v : Verdict) × (r ≡ ok v)
                    × ((t : ℕ)
                        → level_of e.node t s' ≡ (
                            if ltb t (now + verdict_ttl)
                            then if e.hardware_rooted then hardware else software
                            else untrusted)))
              × (known s e ≡ false
                  → (r ≡ err attestation_failed) × ((t : ℕ) → level_of e.node t s' ≡ untrusted)))
  unfolding attest level_of
  attest-level e now s = (
    λ m. (ground arith, ground arith),
    λ f. (
      λ e' later n. ground (arith, member-add string_dec s.spent_nonces e.nonce e'.nonce),
      λ node t n. elim (Bool-cases (known s e)) [
        | inl k ↦ ground (
          arith,
          member-discard s.quarantined e.node node,
          get-put string_dec s.verdicts e.node node (verdict_on bind e now),
        )
        | inr k ↦ ground (arith, member-add string_dec s.quarantined e.node node)
      ],
      λ k. (
        verdict_on bind e now,
        ground arith,
        λ t. ground (
          arith,
          member-discard_self s.quarantined e.node,
          get-put string_dec s.verdicts e.node e.node (verdict_on bind e now),
        ),
      ),
      λ k. (ground arith, λ t. ground (arith, member-add string_dec s.quarantined e.node e.node)),
    ),
  )
