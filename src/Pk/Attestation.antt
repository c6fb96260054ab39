-- ===== src/Pk/Attestation.antt =====
-- pk/pk_components/gap06_device_identity_and_attestation/component.py: verdicts on the evidence of a
-- node. `binding` is SHA-256 over the evidence, `challenge` over the environment, the node and the
-- tick. A node that is attested again is judged anew, also where a verdict of it still stands.
pub mod Trust
use df_fabric.Prelude.{
  ℕ, ◌+◌, String, List, [], ◌∷◌, Bool, true, false, not, Option, none, some, ltb, all, filter,
  member, add, is_yes, string_dec, if◌then◌else◌,
}
use df_fabric.Prelude.Dict.{Dict, get, put}
use df_fabric.Prelude.Exec.{Exec, pure, raise_when, modify, ◌>>=◌, ◌>>◌}

pub data AttestationError : Type 0 where
  attestation_failed replay_detected : AttestationError

-- LEVELS
pub data Level : Type 0 where
  untrusted software hardware : Level

pub record Evidence : Type 0 where
  pub node : String
  pub measurements : List String
  pub nonce : String
  pub hardware_rooted : Bool

pub record Verdict : Type 0 where
  pub node : String
  pub level : Level
  pub issued_at : ℕ
  pub expires_at : ℕ
  pub binding : String

pub record Attestor : Type 0 where
  pub environment : String
  pub accepted : List String
  pub spent_nonces : List String
  pub quarantined : List String
  pub verdicts : Dict String Verdict

abbrev pub verdict_ttl : ℕ
verdict_ttl = 100

-- `level_at`, with `valid_at`
unfoldable pub level_at : Verdict → ℕ → Level
level_at v now = if ltb now v.expires_at then v.level else untrusted

-- `s.discard(x)`
unfoldable pub discard : List String → String → List String
discard s x = filter (λ y. not (is_yes (string_dec y x))) s

unfoldable pub level_of : String → ℕ → Attestor → Level
unfolding level_at
level_of node now s = elim (get string_dec s.verdicts node) [
  | none ↦ untrusted
  | some v ↦ if member string_dec s.quarantined node then untrusted else level_at v now
]

unfoldable pub accept_measurement : String → Attestor → Attestor
accept_measurement digest s = record s { accepted = add string_dec s.accepted digest }

-- all measurements are accepted
abbrev pub known : Attestor → Evidence → Bool
known s e = all (member string_dec s.accepted) e.measurements

module _ (bind : Evidence → String) where
  verdict_on : Evidence → ℕ → Verdict
  verdict_on e now = record {
    node = e.node;
    level = if e.hardware_rooted then hardware else software;
    issued_at = now;
    expires_at = now + verdict_ttl;
    binding = bind e;
  }

  -- the judgement on the measurements, once the nonce is spent
  judge : Evidence → ℕ → Bool → Exec AttestationError Attestor Verdict
  unfolding verdict_on
  judge e now false = do
    modify (λ s. record s { quarantined = add string_dec s.quarantined e.node })
    raise_when true attestation_failed
    pure (verdict_on e now)
  judge e now true = do
    modify (λ s. record s {
      quarantined = discard s.quarantined e.node;
      verdicts = put string_dec s.verdicts e.node (verdict_on e now);
    })
    pure (verdict_on e now)

  unfoldable pub attest : Evidence → ℕ → Exec AttestationError Attestor Verdict
  unfolding judge verdict_on discard
  attest e now s =
      (do
        raise_when (member string_dec s.spent_nonces e.nonce) replay_detected
        modify (λ s. record s { spent_nonces = add string_dec s.spent_nonces e.nonce })
        judge e now (known s e))
        s
