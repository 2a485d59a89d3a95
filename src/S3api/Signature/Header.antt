-- ===== src/S3api/Signature/Header.antt =====
-- internal/s3api/handler.go: the requests that `authorized` lets through by their Authorization header.
use telegram_s.Base.{
  ℕ, ◌+◌, ◌-◌, ◌≤◌, ◌≡◌, refl, inl, inr, true, false, Bool-cases, Option, none, some, List, [],
  arith, ltb, ◌⊎◌,
}
use telegram_s.Base.Bytes.{
  Bytes, codes, equal, equal_refl, equal_eq, is_empty, has_prefix, trim_prefix, split_byte,
  equal_fold,
}
use telegram_s.S3api.Router.{get_value}
use telegram_s.S3api.Canonical.{SignedRequest, canonical_query, canonical_headers_with}
use telegram_s.S3api.Signature.{
  Hashes, Keys, Scope, parse_credential, parse_auth_fields, has_signed, quarter, header_hash,
  signature_of, verify_header_sig_with, identity, verify_header, header_at, header_scope,
  header_fields, authorized_header,
}

module _ (h : Hashes) (parse_time : Bytes → Option ℕ) (keys : Keys) (now : ℕ)
    (req : SignedRequest) where
  -- The fields of the Authorization header.
  abbrev pub auth_fields : List (Bytes × Bytes)
  auth_fields = parse_auth_fields (
      split_byte b','
        (trim_prefix (req.header (codes "Authorization")) (codes "AWS4-HMAC-SHA256 ")))

  abbrev pub field : Bytes → Bytes
  field name = get_value name auth_fields

  -- The signature of the header, with the values of some headers overridden.
  abbrev pub header_signature : Scope → List (Bytes × Bytes) → Bytes
  header_signature scope override =
      signature_of h keys req scope (req.header (codes "X-Amz-Date"))
        (field (codes "SignedHeaders")) (canonical_query req.query [])
        (canonical_headers_with req (field (codes "SignedHeaders")) override) (header_hash req)

  -- What a proxy may have done to Accept-Encoding.
  abbrev pub IsRewritten : Type 0
  IsRewritten =
      (has_signed (field (codes "SignedHeaders")) (codes "accept-encoding") ≡ true)
      × (equal_fold (req.header (codes "Accept-Encoding")) (codes "identity") ≡ false)

  -- A signature in the header, of a request that was made within a quarter of an hour.
  pub record Headed : Type 0 where
    pub scope : Scope
    pub at : ℕ
    pub scheme : has_prefix (codes "AWS4-HMAC-SHA256 ") (req.header (codes "Authorization")) ≡ true
    pub known : parse_credential keys (field (codes "Credential")) ≡ some scope
    pub named : is_empty (field (codes "Credential")) ≡ false
    pub covers : is_empty (field (codes "SignedHeaders")) ≡ false
    pub given : is_empty (field (codes "Signature")) ≡ false
    pub dated : is_empty (req.header (codes "X-Amz-Date")) ≡ false
    pub made : parse_time (req.header (codes "X-Amz-Date")) ≡ some at
    pub not_old : now ≤ at + quarter
    pub not_ahead : at ≤ now + quarter
    pub signed :
        (header_signature scope [] ≡ field (codes "Signature"))
        ⊎ (IsRewritten
            × (header_signature scope (identity h parse_time keys now req)
                ≡ field (codes "Signature")))

  verify_header-signed :
      (scope : Scope)
      → verify_header h parse_time keys now req
          (field (codes "SignedHeaders"))
          (req.header (codes "X-Amz-Date"))
          scope
          (field (codes "Signature"))
        ≡ true
      → (header_signature scope [] ≡ field (codes "Signature"))
        ⊎ (IsRewritten
            × (header_signature scope (identity h parse_time keys now req)
                ≡ field (codes "Signature")))
  unfolding verify_header verify_header_sig_with
  verify_header-signed scope e =
      elim (Bool-cases (equal (header_signature scope []) (field (codes "Signature")))) [
        | inl plain ↦ inl (equal_eq _ (field (codes "Signature")) plain)
        | inr other ↦
            inr
              ((ground arith, ground arith), equal_eq _ (field (codes "Signature")) (ground arith))
      ]

  signed-verify_header :
      (scope : Scope)
      → (header_signature scope [] ≡ field (codes "Signature"))
        ⊎ (IsRewritten
            × (header_signature scope (identity h parse_time keys now req)
                ≡ field (codes "Signature")))
      → verify_header h parse_time keys now req
          (field (codes "SignedHeaders"))
          (req.header (codes "X-Amz-Date"))
          scope
          (field (codes "Signature"))
        ≡ true
  unfolding verify_header verify_header_sig_with
  signed-verify_header scope (inl plain) =
      rw plain (rw (equal_refl (field (codes "Signature"))) refl)
  signed-verify_header scope (inr ((covered, changed), e)) =
      elim (Bool-cases (equal (header_signature scope []) (field (codes "Signature")))) [
        | inl plain ↦ rw plain refl
        | inr other ↦
            rw other (rw covered (rw changed (rw e (equal_refl (field (codes "Signature"))))))
      ]

  header_at-made :
      (scope : Scope) (time : Option ℕ)
      → header_at h parse_time keys now req
          (field (codes "SignedHeaders"))
          (req.header (codes "X-Amz-Date"))
          scope
          (field (codes "Signature"))
          time
        ≡ true
      → (at : ℕ) × (time ≡ some at)
        × (now ≤ at + quarter)
        × (at ≤ now + quarter)
        × (verify_header h parse_time keys now req
              (field (codes "SignedHeaders"))
              (req.header (codes "X-Amz-Date"))
              scope
              (field (codes "Signature"))
            ≡ true)
  unfolding header_at
  header_at-made scope none e = absurd (ground arith)
  header_at-made scope (some at) e = (at, refl, ground arith, ground arith, ground arith)

  header_scope-made :
      (found : Option Scope)
      → header_scope h parse_time keys now req
          (field (codes "SignedHeaders"))
          (field (codes "Signature"))
          found
        ≡ true
      → (scope : Scope) × (found ≡ some scope)
        × (is_empty (req.header (codes "X-Amz-Date")) ≡ false)
        × (header_at h parse_time keys now req
              (field (codes "SignedHeaders"))
              (req.header (codes "X-Amz-Date"))
              scope
              (field (codes "Signature"))
              (parse_time (req.header (codes "X-Amz-Date")))
            ≡ true)
  unfolding header_scope
  header_scope-made none e = absurd (ground arith)
  header_scope-made (some scope) e = (scope, refl, ground arith, ground arith)

  pub authorized_header-made : authorized_header h parse_time keys now req ≡ true → Headed
  unfolding authorized_header header_fields
  authorized_header-made e =
      let (scope, known, dated, e1) =
        header_scope-made (parse_credential keys (field (codes "Credential"))) (ground arith) in
      let (at, made, not_old, not_ahead, e2) = header_at-made scope _ e1 in
      record {
        scope = scope;
        at = at;
        scheme = ground arith;
        known = known;
        named = ground arith;
        covers = ground arith;
        given = ground arith;
        dated = dated;
        made = made;
        not_old = not_old;
        not_ahead = not_ahead;
        signed = verify_header-signed scope e2;
      }

  pub Headed-authorized : Headed → authorized_header h parse_time keys now req ≡ true
  unfolding authorized_header header_fields header_scope header_at
  Headed-authorized p =
      let young : ltb quarter (now - p.at) ≡ false = (let f = p.not_old in ground arith) in
      let past : ltb quarter (p.at - now) ≡ false = (let f = p.not_ahead in ground arith) in
      rw p.scheme (
        rw p.named (
          rw p.covers (
            rw p.given (
              rw p.known (
                rw p.dated
                  (rw p.made (rw young (rw past (signed-verify_header p.scope p.signed)))))))))
