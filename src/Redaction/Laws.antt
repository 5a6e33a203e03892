-- ===== src/Redaction/Laws.antt =====
-- What a payload that passes the redaction check masks.
use sih26_proto.Redaction.Written.{pointer_of-split_pointer}
use sih26_proto.Redaction.Pointers.{pointer_of, split_pointer-pointer_of}
use sih26_proto.Redaction.Children.{IsChild, descend-IsChild, IsChild-descend}
use sih26_proto.Common.{
  ◌∙◌, ◌≡◌, ◌↔◌, refl, ap, sym, subst, Bool, true, List, [], ◌∷◌, if◌then◌else◌, Bool-cases,
  Option-cases, inl, inr, eq_of_beq, beq_refl, nat_eq, list_eq, All,
}
use sih26_proto.Result.{
  Result, ok, err, ◌>>=◌, >>=-eq-ok, ok_injective, IntegrityError, redaction_failure,
}
use sih26_proto.Canonical.Json.{
  Text, Value, null, bool, number, string, not_json, circular, array, object,
}
use sih26_proto.Redaction.{
  redacted, split_pointer, descend, resolve_tokens, resolve_pointer, is_redacted, verify_redaction,
}

module _ {N : Type 0} where
  -- The tokens lead from one value to another, each to a child.
  pub data Leads : Value N → List Text → Value N → Type 0 where
    here : {v : Value N} → Leads v [] v
    into :
        {v w u : Value N} {token : Text} {tokens : List Text}
        → IsChild v token w
        → Leads w tokens u
        → Leads v (token ∷ tokens) u

  resolve_tokens-Leads :
      (v : Value N) (tokens : List Text) (u : Value N)
      → resolve_tokens v tokens ≡ ok u
      → Leads v tokens u
  unfolding resolve_tokens
  resolve_tokens-Leads v [] u h = subst (Leads v []) (sym (ok_injective v u h)) here
  resolve_tokens-Leads v (token ∷ tokens) u h = elim (Option-cases (descend v token)) [
    | inl missing ↦ cc (rw (missing, resolve_tokens) at h)
    | inr (w, found) ↦
        into (descend-IsChild v token w found)
          (resolve_tokens-Leads w tokens u (rw (found, resolve_tokens) at h))
  ]

  Leads-resolve_tokens :
      {v u : Value N} {tokens : List Text} → Leads v tokens u → resolve_tokens v tokens ≡ ok u
  unfolding resolve_tokens
  Leads-resolve_tokens here = refl
  Leads-resolve_tokens (into found more) =
      rw (IsChild-descend found, resolve_tokens) (Leads-resolve_tokens more)

  -- The pointer is written from tokens that lead to the mark.
  pub record IsMasked (payload : Value N) (pointer : Text) : Type 0 where
    pub tokens : List Text
    pub written : pointer ≡ pointer_of tokens
    pub leads : Leads payload tokens (string redacted)

  is_redacted-eq : (v : Value N) → is_redacted v ≡ true → v ≡ string redacted
  is_redacted-eq (string s) h = ap string (eq_of_beq s redacted h)
  is_redacted-eq null h = cc h
  is_redacted-eq (bool b) h = cc h
  is_redacted-eq (number n) h = cc h
  is_redacted-eq (not_json kind) h = cc h
  is_redacted-eq circular h = cc h
  is_redacted-eq (array items named) h = cc h
  is_redacted-eq (object plain symbols ms) h = cc h

  masked :
      (payload : Value N) (pointer : Text) (rest : Result Bool IntegrityError)
      → (resolve_pointer payload pointer >>= λ v.
          if is_redacted v then rest else err redaction_failure)
        ≡ ok true
      → IsMasked payload pointer × (rest ≡ ok true)
  unfolding resolve_pointer
  masked payload pointer rest h =
      let (v, resolved, h) = >>=-eq-ok (resolve_pointer payload pointer) _ h in
      let (tokens, splits, reached) = >>=-eq-ok (split_pointer pointer) _ resolved in
      elim (Bool-cases (is_redacted v)) [
        | inl marked ↦ (
          record {
            tokens = tokens;
            written = pointer_of-split_pointer pointer tokens splits;
            leads =
                subst (Leads payload tokens) (is_redacted-eq v marked)
                  (resolve_tokens-Leads payload tokens v reached);
          },
          rw marked at h,
        )
        | inr other ↦ cc (rw other at h)
      ]

  verify_redaction-All :
      (payload : Value N) (pointers : List Text)
      → verify_redaction payload pointers ≡ ok true
      → All (IsMasked payload) pointers
  unfolding verify_redaction
  verify_redaction-All payload [] h = tt
  verify_redaction-All payload (pointer ∷ pointers) h =
      let (one, more) = masked payload pointer (verify_redaction payload pointers) h in
      (one, verify_redaction-All payload pointers more)

  All-verify_redaction :
      (payload : Value N) (pointers : List Text)
      → All (IsMasked payload) pointers
      → verify_redaction payload pointers ≡ ok true
  unfolding verify_redaction resolve_pointer
  All-verify_redaction payload [] h = refl
  All-verify_redaction payload (pointer ∷ pointers) (one, more) =
      rw
        (
          ap split_pointer one.written ∙ split_pointer-pointer_of one.tokens,
          Leads-resolve_tokens one.leads,
          beq_refl redacted,
          All-verify_redaction payload pointers more,
        )
        refl

  -- The redaction check passes exactly where each declared pointer is written, as RFC 6901 has it, from
  -- tokens that lead to the string `[REDACTED]`: in an array, a numeral without leading zeros leads to
  -- the element at its number, in an object, a key leads to its value, and a value is not `undefined`.
  pub verify_redaction_iff :
      (payload : Value N) (pointers : List Text)
      → (verify_redaction payload pointers ≡ ok true) ↔ All (IsMasked payload) pointers
  verify_redaction_iff payload pointers =
      (verify_redaction-All payload pointers, All-verify_redaction payload pointers)
