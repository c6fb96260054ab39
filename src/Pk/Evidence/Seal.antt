-- ===== src/Pk/Evidence/Seal.antt =====
-- What the chain of the evidence ledger guarantees.
use df_fabric.Prelude.{
  ℕ, suc, ◌+◌, String, List, [], ◌∷◌, ◌++◌, length, ◌≡◌, refl, arith, ap, ap₂, sym, ◌∙◌,
}
use mathlib.Core.List.{append_assoc, append-nil}
use df_fabric.Pk.Evidence.{
  Body, EvidenceRecord, EvidenceLedger, ChainDefect, genesis, head_from, head, seal, append,
  defects_at, verify_from, verify,
}

-- No two different bodies at one place of the two ledgers have one digest.
abbrev pub NoCollision :
    {P : Type 0} → (Body P → String) → EvidenceLedger P → EvidenceLedger P → Type 0
NoCollision digest [] ts = Unit
NoCollision digest (r ∷ rs) [] = Unit
NoCollision digest (r ∷ rs) (t ∷ ts) =
    (digest r.body ≡ digest t.body → r.body ≡ t.body) × NoCollision digest rs ts

module _ {P : Type 0} (digest : Body P → String) where
  verify_from-append :
      (i : ℕ) (p : String) (rs : EvidenceLedger P) (r : EvidenceRecord P)
      → verify_from digest i p (rs ++ (r ∷ []))
        ≡ verify_from digest i p rs ++ defects_at digest (i + length rs) (head_from p rs) r
  unfolding verify_from head_from
  verify_from-append i p [] r =
      append-nil (defects_at digest i p r) ∙ ap (λ n. defects_at digest n p r) (omega arith)
  verify_from-append i p (t ∷ rs) r =
      ap (λ ds. defects_at digest i p t ++ ds)
        (verify_from-append (suc i) t.self_digest rs r
          ∙ ap
              (λ n.
                verify_from digest (suc i) t.self_digest rs
                ++ defects_at digest n (head_from t.self_digest rs) r)
              (omega arith))
      ∙ sym (
          append_assoc (defects_at digest i p t) (verify_from digest (suc i) t.self_digest rs)
            (defects_at digest (i + suc (length rs)) (head_from t.self_digest rs) r))

  -- A record without defect stands in its place.
  defects_at-none :
      (i : ℕ) (p : String) (r : EvidenceRecord P)
      → defects_at digest i p r ≡ []
      → (r.body.sequence ≡ i) × (r.body.previous ≡ p) × (r.self_digest ≡ digest r.body)
  unfolding defects_at
  defects_at-none i p r h = ground arith

  defects_at-sealed :
      (i : ℕ) (b : Body P) → b.sequence ≡ i → defects_at digest i b.previous (seal digest b) ≡ []
  unfolding defects_at seal
  defects_at-sealed i b h = ground arith

  append_none : (xs ys : List ChainDefect) → xs ++ ys ≡ [] → (xs ≡ []) × (ys ≡ [])
  append_none [] ys h = (refl, h)
  append_none (x ∷ xs) ys h = cc

  -- To append a record adds no defect and takes none away.
  pub verify-append :
      (element stage summary : String) (payload : P) (now : String) (rs : EvidenceLedger P)
      → verify digest (append digest element stage summary payload now rs).1 ≡ verify digest rs
  unfolding verify append head
  verify-append element stage summary payload now rs =
      verify_from-append 0 genesis rs _
      ∙ ap (λ ds. verify_from digest 0 genesis rs ++ ds)
          (defects_at-sealed (0 + length rs) _ (omega arith))
      ∙ append-nil (verify_from digest 0 genesis rs)

  seal_from :
      (i j : ℕ) (p q : String) (rs ts : EvidenceLedger P)
      → verify_from digest i p rs ≡ []
      → verify_from digest j q ts ≡ []
      → length rs ≡ length ts
      → head_from p rs ≡ head_from q ts
      → NoCollision digest rs ts
      → (p ≡ q) × (rs ≡ ts)
  unfolding verify_from head_from
  seal_from i j p q [] [] h k l e n = (e, refl)
  seal_from i j p q [] (t ∷ ts) h k l e n = absurd (omega arith)
  seal_from i j p q (r ∷ rs) [] h k l e n = absurd (omega arith)
  seal_from i j p q (r ∷ rs) (t ∷ ts) h k l e n =
      let (hr, hs) = append_none (defects_at digest i p r) _ h in
      let (kt, ks) = append_none (defects_at digest j q t) _ k in
      let (same, rest) =
        seal_from (suc i) (suc j) r.self_digest t.self_digest rs ts hs ks (omega arith) e n.1 in
      let (a, b, c) = defects_at-none i p r hr in
      let (a', b', c') = defects_at-none j q t kt in
      let bodies : r.body ≡ t.body = n.0 (sym c ∙ same ∙ c') in
      (
        sym b ∙ ap (λ (x : Body P). x.previous) bodies ∙ b',
        ap₂ ◌∷◌ (λ i. record { body = bodies i; self_digest = same i }) rest,
      )

  -- Two intact ledgers of one length and with one head are the same ledger, record by record, where
  -- no two different bodies at one place have one digest: whoever rewrites a record and keeps the
  -- length leaves a defect or another head.
  pub verify-seal :
      (rs ts : EvidenceLedger P)
      → verify digest rs ≡ []
      → verify digest ts ≡ []
      → length rs ≡ length ts
      → head rs ≡ head ts
      → NoCollision digest rs ts
      → rs ≡ ts
  unfolding verify head
  verify-seal rs ts h k l e n = (seal_from 0 0 genesis genesis rs ts h k l e n).1
