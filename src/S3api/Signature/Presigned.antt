-- ===== src/S3api/Signature/Presigned.antt =====
-- internal/s3api/handler.go: the requests that `authorizedPresigned` lets through.
use telegram_s.Base.{
  ℕ, ◌+◌, ◌*◌, ◌≤◌, ◌≡◌, refl, inl, inr, true, false, Bool-cases, Option, none, some, [], arith,
  leb, ltb,
}
use telegram_s.Base.Bytes.{Bytes, codes, equal_refl, equal_eq, is_empty}
use telegram_s.Base.Int.{ℤ, pos, negsuc, parse_int}
use telegram_s.S3api.Router.{get_value}
use telegram_s.S3api.Canonical.{SignedRequest, canonical_query, canonical_headers_with}
use telegram_s.S3api.Signature.{
  Hashes, Keys, Scope, parse_credential, second, signature_of, presigned_at, presigned_for,
  presigned_scope, authorized_presigned,
}

module _ (h : Hashes) (parse_time : Bytes → Option ℕ) (keys : Keys) (now : ℕ)
    (req : SignedRequest) where
  -- What the parameters of a presigned URL say.
  abbrev pub param : Bytes → Bytes
  param name = get_value name req.query

  -- A signature in the query, of a URL that has not expired.
  pub record Presigned : Type 0 where
    pub scope : Scope
    pub exp : ℕ
    pub at : ℕ
    pub known : parse_credential keys (param (codes "X-Amz-Credential")) ≡ some scope
    pub named : is_empty (param (codes "X-Amz-Credential")) ≡ false
    pub covers : is_empty (param (codes "X-Amz-SignedHeaders")) ≡ false
    pub dated : is_empty (param (codes "X-Amz-Date")) ≡ false
    pub limited : is_empty (param (codes "X-Amz-Expires")) ≡ false
    pub seconds : parse_int 10 (param (codes "X-Amz-Expires")) ≡ some (pos exp)
    pub within : (1 ≤ exp) × (exp ≤ 604800)
    pub made : parse_time (param (codes "X-Amz-Date")) ≡ some at
    pub fresh : now ≤ at + exp * second
    pub signed :
        signature_of h keys req scope
          (param (codes "X-Amz-Date"))
          (param (codes "X-Amz-SignedHeaders"))
          (canonical_query req.query (codes "X-Amz-Signature"))
          (canonical_headers_with req (param (codes "X-Amz-SignedHeaders")) [])
          (codes "UNSIGNED-PAYLOAD")
        ≡ param (codes "X-Amz-Signature")

  presigned_at-made :
      (sh date : Bytes) (scope : Scope) (provided : Bytes) (exp : ℕ) (time : Option ℕ)
      → presigned_at h parse_time keys now req sh date scope provided exp time ≡ true
      → (at : ℕ) × (time ≡ some at)
        × (now ≤ at + exp * second)
        × (signature_of h keys req scope date sh
              (canonical_query req.query (codes "X-Amz-Signature"))
              (canonical_headers_with req sh [])
              (codes "UNSIGNED-PAYLOAD")
            ≡ provided)
  unfolding presigned_at
  presigned_at-made sh date scope provided exp none e = absurd (ground arith)
  presigned_at-made sh date scope provided exp (some at) e =
      elim (Bool-cases (ltb (at + exp * second) now)) [
        | inl late ↦ absurd (ground arith)
        | inr fresh ↦ (at, refl, ground arith, equal_eq _ provided (ground arith))
      ]

  presigned_for-made :
      (sh date : Bytes) (scope : Scope) (provided : Bytes) (expires : Option ℤ)
      → presigned_for h parse_time keys now req sh date scope provided expires ≡ true
      → (exp : ℕ) × (expires ≡ some (pos exp))
        × ((1 ≤ exp) × (exp ≤ 604800))
        × (presigned_at h parse_time keys now req sh date scope provided exp (parse_time date)
            ≡ true)
  unfolding presigned_for
  presigned_for-made sh date scope provided none e = absurd (ground arith)
  presigned_for-made sh date scope provided (some (negsuc n)) e = absurd (ground arith)
  presigned_for-made sh date scope provided (some (pos exp)) e =
      (exp, refl, (ground arith, ground arith), ground arith)

  presigned_scope-made :
      (sh date expires provided : Bytes) (found : Option Scope)
      → presigned_scope h parse_time keys now req sh date expires provided found ≡ true
      → (scope : Scope) × (found ≡ some scope)
        × (presigned_for h parse_time keys now req sh date scope provided (parse_int 10 expires)
            ≡ true)
  unfolding presigned_scope
  presigned_scope-made sh date expires provided none e = absurd (ground arith)
  presigned_scope-made sh date expires provided (some scope) e = (scope, refl, e)

  pub authorized_presigned-made :
      authorized_presigned h parse_time keys now req (param (codes "X-Amz-Signature")) ≡ true
      → Presigned
  unfolding authorized_presigned
  authorized_presigned-made e =
      let sh = param (codes "X-Amz-SignedHeaders") in
      let date = param (codes "X-Amz-Date") in
      let provided = param (codes "X-Amz-Signature") in
      let (scope, known, e1) =
        presigned_scope-made sh date (param (codes "X-Amz-Expires")) provided
          (parse_credential keys (param (codes "X-Amz-Credential"))) (ground arith) in
      let (exp, seconds, within, e2) = presigned_for-made sh date scope provided _ e1 in
      let (at, made, fresh, signed) = presigned_at-made sh date scope provided exp _ e2 in
      record {
        scope = scope;
        exp = exp;
        at = at;
        known = known;
        named = ground arith;
        covers = ground arith;
        dated = ground arith;
        limited = ground arith;
        seconds = seconds;
        within = within;
        made = made;
        fresh = fresh;
        signed = signed;
      }

  pub Presigned-authorized :
      Presigned
      → authorized_presigned h parse_time keys now req (param (codes "X-Amz-Signature")) ≡ true
  unfolding authorized_presigned presigned_scope presigned_for presigned_at
  Presigned-authorized p = rw p.named (
      rw p.covers (
        rw p.dated (
          rw p.limited (
            rw p.known (
              rw p.seconds (
                let (low, high) = p.within in
                let least : leb 1 p.exp ≡ true = ground arith in
                let most : leb p.exp 604800 ≡ true = ground arith in
                let fresh : ltb (p.at + p.exp * second) now ≡ false =
                  (let f = p.fresh in ground arith) in
                rw least (
                  rw most (
                    rw p.made (
                      rw fresh (rw p.signed (equal_refl (param (codes "X-Amz-Signature")))))))))))))
