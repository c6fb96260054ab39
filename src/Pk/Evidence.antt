-- ===== src/Pk/Evidence.antt =====
-- pk/pk_core/evidence.py: the append-only, hash-chained evidence ledger. `digest` is SHA-256 of the
-- canonical JSON of what `compute_digest` hashes; the payload's type is left open, and `now` is what
-- the clock shows. The copy on disk is not modelled.
pub mod Seal
use df_fabric.Prelude.{
  ℕ, suc, ◌+◌, String, List, [], ◌∷◌, ◌++◌, length, if◌then◌else◌, ◌==◌, is_yes, string_dec,
}

pub record Body (P : Type 0) : Type 0 where
  pub sequence : ℕ
  pub element : String
  pub stage : String
  pub summary : String
  pub payload : P
  pub recorded_at : String
  pub previous : String

pub record EvidenceRecord (P : Type 0) : Type 0 where
  pub body : Body P
  pub self_digest : String

abbrev pub EvidenceLedger : Type 0 → Type 0
EvidenceLedger P = List (EvidenceRecord P)

-- GENESIS
abbrev pub genesis : String
genesis = "0000000000000000000000000000000000000000000000000000000000000000"

pub data ChainDefect : Type 0 where
  wrong_sequence : ℕ → ℕ → ChainDefect
  broken_chain : ℕ → ChainDefect
  wrong_digest : ℕ → ChainDefect

module _ {P : Type 0} where
  -- the digest of the last record, or `previous` where there is none
  unfoldable pub head_from : String → EvidenceLedger P → String
  head_from previous [] = previous
  head_from previous (r ∷ rs) = head_from r.self_digest rs

  unfoldable pub head : EvidenceLedger P → String
  unfolding head_from
  head rs = head_from genesis rs

module _ {P : Type 0} (digest : Body P → String) where
  unfoldable pub seal : Body P → EvidenceRecord P
  seal b = record { body = b; self_digest = digest b }

  unfoldable pub append :
      String → String → String → P → String → EvidenceLedger P → EvidenceRecord P × EvidenceLedger P
  unfolding head seal
  append element stage summary payload now rs =
      let r = seal (record {
        sequence = length rs;
        element = element;
        stage = stage;
        summary = summary;
        payload = payload;
        recorded_at = now;
        previous = head rs;
      }) in
      (r, rs ++ (r ∷ []))

  -- the defects of one record at its place in the chain
  unfoldable pub defects_at : ℕ → String → EvidenceRecord P → List ChainDefect
  defects_at index previous r =
      (if r.body.sequence == index then [] else wrong_sequence index r.body.sequence ∷ [])
      ++ ((if is_yes (string_dec r.body.previous previous) then [] else broken_chain index ∷ [])
          ++ (if is_yes (string_dec r.self_digest (digest r.body))
              then []
              else wrong_digest index ∷ []))

  unfoldable pub verify_from : ℕ → String → EvidenceLedger P → List ChainDefect
  unfolding defects_at
  verify_from index previous [] = []
  verify_from index previous (r ∷ rs) =
      defects_at index previous r ++ verify_from (suc index) r.self_digest rs

  unfoldable pub verify : EvidenceLedger P → List ChainDefect
  unfolding verify_from
  verify rs = verify_from 0 genesis rs
