-- ===== src/Status/WireEnds.antt =====
-- status/status.go: `unmarshalStatus` ends on any input.
use zara_rpc.Common.{
  length-drop, zero, suc, ◌≤◌, ◌<◌, ◌≡◌, ◌≢◌, ℕ, some, [], ◌∷◌, Text, length, drop, arith,
  Option-cases, inl, inr,
}
use zara_rpc.Status.Wire.{
  Status, empty_status, Protowire, stuck, read_value, read_field, read_fields, unmarshal_status,
}
use zara_rpc.Common.{length-drop, ◌≢◌, Option-cases, inl, inr, zero, suc, ◌≤◌, ◌<◌, arith, some}
use zara_rpc.Status.Wire.{stuck}
use zara_rpc.Status.WireLaws.{IsProtowire}

module _ {A : Type 0} (W : Protowire A) (L : IsProtowire W) where
  read_value_takes :
      (num typ : ℕ) (b rest : Text) (st st' : Status A)
      → read_value W num typ b st ≡ some (rest, st')
      → length rest ≤ length b
  unfolding read_value
  read_value_takes num typ b rest st st' e = grind (arith, λ (n : ℕ). length-drop n b)

  read_field_takes :
      (b rest : Text) (st st' : Status A)
      → read_field W b st ≡ some (rest, st')
      → length rest < length b
  unfolding read_field
  read_field_takes b rest st st' e = elim (Option-cases (W.consume_tag b)) [
    | inl none_left ↦ absurd (cc (rw (read_field, none_left) at e))
    | inr ((num, typ, n), h) ↦ omega (
      arith,
      L.tag_takes b num typ n h,
      length-drop n b,
      read_value_takes num typ (drop n b) rest st st' (rw (read_field, h) at e),
    )
  ]

  read_fields-ne-stuck :
      (fuel : ℕ) (b : Text) (st : Status A) → length b ≤ fuel → read_fields W fuel b st ≢ stuck
  unfolding read_fields
  read_fields-ne-stuck fuel [] st enough = λ e. cc
  read_fields-ne-stuck zero (c ∷ b) st enough = absurd (omega arith)
  read_fields-ne-stuck (suc fuel) (c ∷ b) st enough =
      elim (Option-cases (read_field W (c ∷ b) st)) [
        | inl none_left ↦ rw (read_fields, none_left) (λ e. cc)
        | inr ((rest, st'), h) ↦
            rw (read_fields, h)
              (read_fields-ne-stuck fuel rest st'
                (omega (arith, read_field_takes (c ∷ b) rest st st' h)))
      ]

  -- `unmarshalStatus` ends on any input, with a status or an error: as many rounds of its loop as
  -- the input has bytes are enough. The tags of package protowire are as documented.
  pub unmarshal_status-ne-stuck : (b : Text) → unmarshal_status W b ≢ stuck
  unfolding unmarshal_status
  unmarshal_status-ne-stuck b = read_fields-ne-stuck (length b) b empty_status (omega arith)
