-- ===== src/Persistence/Catalogue/Entitled.antt =====
-- What a lookup of the catalogue finds: `OperationCatalogue.lookup` and `is_entitled` of
-- ragcore/src/ragcore/persistence/repositories.py.
use itsm_poc.Common.{
  Bool, true, false, ◌&&◌, List, [], ◌∷◌, Option, none, some, str_eq, ◌==◌, ok, if◌then◌else◌, ◌≤◌,
  ◌≡◌, refl, ap, ◌∙◌, arith, Bool-cases, inl, inr, map, str_eq_iff, ◌>>=◌, append_nil, ◌⊎◌,
}
use itsm_poc.Domain.Records.{TenantContext, OperationIdentity}
use itsm_poc.Governance.Catalogue.{GovernanceRow}
use itsm_poc.Persistence.Rows.{select, matching, row_at, select_none}
use itsm_poc.Persistence.Catalogue.{
  EntitlementRow, is_entitlement, is_enabled, is_joined, partners, joined, one_or_none, record_of,
  lookup, is_entitled, is_there,
}

-- The primary key of `governance_record`.
unfoldable pub is_row_of : OperationIdentity → GovernanceRow → Bool
is_row_of identity g = str_eq g.catalogue_id identity.catalogue_id && g.version == identity.version

module _ (tenant : TenantContext) (identity : OperationIdentity) where
  partners_of_other :
      (g : GovernanceRow) (es : List EntitlementRow)
      → is_row_of identity g ≡ false
      → partners tenant identity g es ≡ []
  unfolding partners is_joined is_row_of
  partners_of_other g [] h = refl
  partners_of_other g (e ∷ es) h = let rest = partners_of_other g es h in ground arith

  joined_own :
      (g : GovernanceRow) (e : EntitlementRow)
      → is_row_of identity g ≡ true
      → is_joined tenant identity g e ≡ is_enabled tenant identity.catalogue_id e
  unfolding is_joined is_enabled is_row_of is_entitlement
  joined_own g e h =
      let same : g.catalogue_id ≡ identity.catalogue_id =
        (str_eq_iff g.catalogue_id identity.catalogue_id).0 (ground arith) in
      rw (same) ground arith

  copies_of : List EntitlementRow → Option GovernanceRow → List GovernanceRow
  copies_of es none = []
  copies_of es (some g) = map (λ _. g) es

  partners_own :
      (g : GovernanceRow) (es : List EntitlementRow)
      → is_row_of identity g ≡ true
      → partners tenant identity g es
        ≡ copies_of (select (is_enabled tenant identity.catalogue_id) es) (some g)
  unfolding partners copies_of
  partners_own g [] h = refl
  partners_own g (e ∷ es) h =
      let rest = partners_own g es h in
      let same = joined_own g e h in
      elim (Bool-cases (is_enabled tenant identity.catalogue_id e)) [
        | inl yes_ ↦ rw (same, yes_, if◌then◌else◌) (ap (λ gs. g ∷ gs) rest)
        | inr no_ ↦ rw (same, no_, if◌then◌else◌) rest
      ]

  none_joined :
      (es : List EntitlementRow) (gs : List GovernanceRow)
      → matching (is_row_of identity) gs ≡ 0
      → joined tenant identity es gs ≡ []
  unfolding joined
  none_joined es [] h = refl
  none_joined es (g ∷ gs) h =
      rw (partners_of_other g es (ground arith)) (none_joined es gs (ground arith))

  joined_of_row :
      (es : List EntitlementRow) (gs : List GovernanceRow)
      → matching (is_row_of identity) gs ≤ 1
      → joined tenant identity es gs
        ≡ copies_of
            (select (is_enabled tenant identity.catalogue_id) es)
            (row_at (is_row_of identity) gs)
  unfolding joined copies_of
  joined_of_row es [] h = refl
  joined_of_row es (g ∷ gs) h = elim (Bool-cases (is_row_of identity g)) [
    | inl own ↦
        rw
          (
            own,
            if◌then◌else◌,
            none_joined es gs (ground arith),
            append_nil (partners tenant identity g es),
          )
          (partners_own g es own)
    | inr other ↦
        rw (other, if◌then◌else◌, partners_of_other g es other) (joined_of_row es gs (ground arith))
  ]

  enabled_few :
      (es : List EntitlementRow)
      → matching (is_enabled tenant identity.catalogue_id) es
        ≤ matching (is_entitlement tenant identity.catalogue_id) es
  unfolding is_enabled
  enabled_few [] = omega arith
  enabled_few (e ∷ es) = let rest = enabled_few es in ground arith

  at_most_one {ℓ} :
      {Row : Type ℓ} (where_ : Row → Bool) (rows : List Row)
      → matching where_ rows ≤ 1
      → (select where_ rows ≡ []) ⊎ ((r : Row) × (select where_ rows ≡ r ∷ []))
  at_most_one where_ [] h = inl refl
  at_most_one where_ (r ∷ rows) h = elim (Bool-cases (where_ r)) [
    | inl e ↦ inr (r, rw (e, if◌then◌else◌, select_none where_ rows (ground arith)) refl)
    | inr e ↦ rw (e, if◌then◌else◌) (at_most_one where_ rows (ground arith))
  ]

  answered :
      (es : List EntitlementRow) (o : Option GovernanceRow)
      → (es ≡ []) ⊎ ((e : EntitlementRow) × (es ≡ e ∷ []))
      → (one_or_none (copies_of es o) >>= λ row. record_of row) ≡ (
          (one_or_none es >>= λ row. ok (is_there row)) >>= λ entitled.
          if entitled then record_of o else ok none)
  unfolding copies_of one_or_none is_there record_of
  answered [] none few = refl
  answered [] (some g) few = refl
  answered (e ∷ []) none few = refl
  answered (e ∷ []) (some g) few = refl
  answered (e ∷ f ∷ es) o (inl none_) = cc
  answered (e ∷ f ∷ es) o (inr (x, one)) = cc

  -- Where the keys are keys, a lookup finds the validated row of the identity if the organisation is
  -- entitled to the capability, and nothing if it is not.
  pub lookup_entitled :
      (es : List EntitlementRow) (gs : List GovernanceRow)
      → matching (is_entitlement tenant identity.catalogue_id) es ≤ 1
      → matching (is_row_of identity) gs ≤ 1
      → lookup tenant identity es gs ≡ (
          is_entitled tenant identity.catalogue_id es >>= λ entitled.
          if entitled then record_of (row_at (is_row_of identity) gs) else ok none)
  unfolding lookup is_entitled
  lookup_entitled es gs few_es few_gs =
      let few : matching (is_enabled tenant identity.catalogue_id) es ≤ 1 =
        omega (arith, few_es, enabled_few es) in
      ap (λ gs. one_or_none gs >>= λ row. record_of row) (joined_of_row es gs few_gs)
      ∙ answered (select (is_enabled tenant identity.catalogue_id) es)
          (row_at (is_row_of identity) gs)
          (at_most_one (is_enabled tenant identity.catalogue_id) es few)
