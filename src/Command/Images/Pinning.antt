-- ===== src/Command/Images/Pinning.antt =====
-- cmd/hauler/cli/store/sync.go: what resolveAndVerify has checked when it reports no error.
use hauler.Base.{
  ℕ, Option-cases, ◌≡◌, refl, ap, ◌∙◌, Bool, false, none, some, [], Text, ◌⊎◌, inl, inr, arith,
}
use hauler.Store.Add.{ImageRef}
use hauler.Retry.{retry_operation}
use hauler.Retry.Attempts.{retry_operation-last}
use hauler.Command.Verify.{
  Config, is_empty_config, Checked, accepted, rejected, Notary, Pin, head_once, pin_digest,
  check_pinned, resolve_and_verify,
}

module _ (notary : Notary) where
  Checked-cases : (c : Checked) → (c ≡ accepted) ⊎ ((b : Bool) × (c ≡ rejected b))
  Checked-cases accepted = inl refl
  Checked-cases (rejected b) = inr (b, refl)

  check_pinned-accepted :
      (cfg : Config) (ref : ImageRef) (pinned : Text)
      → check_pinned notary cfg ref pinned ≡ none
      → notary.verify cfg (notary.at_digest ref pinned) ≡ accepted
  unfolding check_pinned
  check_pinned-accepted cfg ref pinned ok = elim (Checked-cases (notary.configure cfg)) [
    | inr (b, bad) ↦ absurd (ground (arith, bad, ok))
    | inl fine ↦ elim (Checked-cases (notary.verify cfg (notary.at_digest ref pinned))) [
      | inl good ↦ good
      | inr (b, bad) ↦ absurd (ground (arith, fine, bad, ok))
    ]
  ]

  -- the digest that is pinned is one that the registry answered
  head_once-pinned :
      (p : Pin)
      → (head_once notary p).0 ≡ none
      → (head_once notary p).1.pinned ≡ notary.head_digest p.calls
  unfolding head_once
  head_once-pinned p ok = elim (Checked-cases (notary.heads p.calls)) [
    | inl good ↦ rw (good, head_once) refl
    | inr (b, bad) ↦ absurd (ground (arith, bad, ok))
  ]

  pin_digest-answered :
      (ignore_errors : Bool)
      → (pin_digest notary ignore_errors).0 ≡ none
      → (k : ℕ) × ((pin_digest notary ignore_errors).1 ≡ notary.head_digest k)
  unfolding pin_digest
  pin_digest-answered ignore_errors ok =
      let start : Pin = record { calls = 0; pinned = [] } in
      let r =
        retry_operation (head_once notary) (λ e. false) notary.live notary.waits ignore_errors
          notary.retries start in
      elim (Option-cases r.result) [
        | inr (e, failed) ↦ absurd (ground (arith, failed, ok))
        | inl done ↦
            let (p, last, same) =
              retry_operation-last (head_once notary) (λ e. false) notary.live notary.waits
                ignore_errors notary.retries start done in
            (
              p.calls,
              rw (done, pin_digest) (ap (λ (q : Pin). q.pinned) same ∙ head_once-pinned p last),
            )
      ]

  -- a verification that is asked for and reports no error accepted the digest that it returns
  pub verified_pin :
      (ignore_errors : Bool) (cfg : Config) (name : Text)
      → is_empty_config cfg ≡ false
      → (resolve_and_verify notary ignore_errors cfg name).1 ≡ none
      → (ref : ImageRef) × (k : ℕ) × (notary.parse name ≡ some ref)
        × ((resolve_and_verify notary ignore_errors cfg name).0 ≡ notary.head_digest k)
        × (notary.verify cfg
              (notary.at_digest ref (resolve_and_verify notary ignore_errors cfg name).0)
            ≡ accepted)
  unfolding resolve_and_verify
  verified_pin ignore_errors cfg name asked ok = elim (Option-cases (notary.parse name)) [
    | inl bad ↦ absurd (ground (arith, asked, bad, ok))
    | inr (ref, parsed) ↦ elim (Option-cases (pin_digest notary ignore_errors).0) [
      | inr (e, failed) ↦ absurd (ground (arith, asked, parsed, failed, ok))
      | inl pinned ↦
          let (k, answered) = pin_digest-answered ignore_errors pinned in
          let checked : check_pinned notary cfg ref (pin_digest notary ignore_errors).1 ≡ none =
            ground (arith, asked, parsed, pinned, ok) in
          (
            ref,
            k,
            parsed,
            rw (asked, resolve_and_verify) (rw parsed (rw pinned answered)),
            rw (asked, resolve_and_verify)
                (rw parsed (
                  rw pinned
                    (check_pinned-accepted cfg ref (pin_digest notary ignore_errors).1 checked))),
          )
    ]
  ]
