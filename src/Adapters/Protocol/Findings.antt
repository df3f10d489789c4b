-- ===== src/Adapters/Protocol/Findings.antt =====
-- The findings block of an agent's answer, and the bound of a shortened text.
use remote_juggler.Prelude.{
  ℕ, zero, suc, ◌+◌, ◌-◌, ◌≤◌, ◌≡◌, refl, ◌∙◌, ap, false, ◌&&◌, Option, some, List, [], ◌∷◌, ◌++◌,
  map, length, take, drop, leb, ◌==◌, nat_eq, length-append, take-append, drop-append_both, arith,
  Bool-cases, inl, inr,
}
use remote_juggler.Text.{Text, lit, has_prefix, index, trim_space, is_empty}
use remote_juggler.Text.Laws.{has_prefix-append}
use remote_juggler.Adapters.Protocol.{Finding, truncate, stamp, findings_in, extract_findings}

-- No two underscores stand together, and the last byte is none.
abbrev pub Single : Text → Type 0
Single [] = Unit {0}
Single (a ∷ []) = (a == b'_') ≡ false
Single (a ∷ b ∷ s) = ((a == b'_' && b == b'_') ≡ false) × Single (b ∷ s)

no_marker_here :
    (a : ℕ) (s marker rest : Text)
    → Single (a ∷ s)
    → has_prefix (a ∷ s ++ ((b'_' ∷ b'_' ∷ marker) ++ rest)) (b'_' ∷ b'_' ∷ marker) ≡ false
unfolding has_prefix
no_marker_here a [] marker rest h = ground arith
no_marker_here a (b ∷ s) marker rest (h, hs) = ground arith

Single-tail : (a : ℕ) (s : Text) → Single (a ∷ s) → Single s
Single-tail a [] h = tt
Single-tail a (b ∷ s) (h, hs) = hs

-- A marker that begins with two underscores is found behind a text that has no such two.
index-marker :
    (s marker rest : Text)
    → Single s
    → index (s ++ ((b'_' ∷ b'_' ∷ marker) ++ rest)) (b'_' ∷ b'_' ∷ marker) ≡ some (length s)
unfolding index
index-marker [] marker rest h = rw (has_prefix-append (b'_' ∷ b'_' ∷ marker) rest) refl
index-marker (a ∷ s) marker rest h =
    rw (no_marker_here a s marker rest h, index-marker s marker rest (Single-tail a s h)) refl

-- The findings that an agent writes between the markers, in an answer that has no two underscores
-- together before the block or in it, are read back, stamped with the campaign and the run.
pub extract_findings-block :
    (unmarshal : Text → Option (List Finding)) (before json after campaign_id run_id : Text)
    (fs : List Finding)
    → Single before
    → Single json
    → is_empty (trim_space json) ≡ false
    → unmarshal (trim_space json) ≡ some fs
    → extract_findings unmarshal
        (before ++ (lit "__findings__" ++ (json ++ (lit "__end_findings__" ++ after))))
        campaign_id
        run_id
      ≡ map (stamp campaign_id run_id) fs
unfolding extract_findings findings_in lit
extract_findings-block unmarshal before json after campaign_id run_id fs sb sj full parsed =
    let opening = lit "__findings__" in
    let closing = lit "__end_findings__" in
    let tail = json ++ (closing ++ after) in
    let start : index (before ++ (opening ++ tail)) opening ≡ some (length before) =
      index-marker before (lit "findings__") tail sb in
    let skip : drop (length before + 12) (before ++ (opening ++ tail)) ≡ tail =
      drop-append_both before opening tail in
    let end : index tail closing ≡ some (length json) =
      index-marker json (lit "end_findings__") after sj in
    rw (start, extract_findings)
      (ap (λ u. findings_in unmarshal u campaign_id run_id) skip
        ∙ rw (end, findings_in, take-append json (closing ++ after), full, parsed) refl)

length-take-le : (n : ℕ) (s : Text) → length (take n s) ≤ n
length-take-le zero s = omega arith
length-take-le (suc n) [] = omega arith
length-take-le (suc n) (a ∷ s) = omega (arith, length-take-le n s)

-- A shortened text is no longer than the maximum, if that is at least 3, and a text within it is whole.
pub length-truncate :
    (s : Text) (max : ℕ)
    → 3 ≤ max
    → (length (truncate s max) ≤ max) × (length s ≤ max → truncate s max ≡ s)
unfolding truncate lit
length-truncate s max h = elim (Bool-cases (leb (length s) max)) [
  | inl fits ↦ rw fits (ground arith, λ _. refl)
  | inr long ↦ rw long (
    omega (arith, length-append (take (max - 3) s) (lit "..."), length-take-le (max - 3) s),
    λ short. absurd (ground (arith, long)),
  )
]
