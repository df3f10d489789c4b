-- ===== src/Runner/Router/Meta.antt =====
-- The metadata block that a routed finding carries, written and read back.
use remote_juggler.Prelude.{
  ℕ, ◌+◌, ◌-◌, ◌<◌, ◌≡◌, refl, sym, ◌∙◌, ap, Bool, false, Option, some, [], ◌∷◌, ◌++◌, length, take,
  drop, leb, ◌==◌, nat_eq, arith, append_assoc, drop-append, take-append, length-append,
}
use remote_juggler.Text.{
  Text, lit, has_prefix, index, slice, trim_space, trim_left, trim_right, is_space,
}
use remote_juggler.Text.Laws.{Free}
use remote_juggler.Runner.Router.{RjMeta, format_rj_meta, parse_meta_at, parse_rj_meta}

abbrev marker : Text
marker = lit "<!-- rj-meta"

abbrev closer : Text
closer = lit "-->"

-- The first place of the marker is behind a text that has no `<`.
index-marker :
    (pre rest : Text)
    → Free (λ a. a == b'<') pre
    → index (pre ++ (marker ++ rest)) marker ≡ some (length pre)
unfolding index has_prefix lit
index-marker [] rest h = refl
index-marker (a ∷ pre) rest (ha, h) = rw (ha, index-marker pre rest h) refl

not_closer :
    (a : ℕ) (s rest : Text)
    → Free (λ b. b == b'>') s
    → has_prefix (a ∷ s ++ (closer ++ rest)) closer ≡ false
unfolding has_prefix lit
not_closer a [] rest h = ground arith
not_closer a (b ∷ []) rest h = ground arith
not_closer a (b ∷ c ∷ s) rest (hb, (hc, h)) = ground arith

-- The first place of the closer is behind a text that has no `>`.
index-closer :
    (s rest : Text)
    → Free (λ a. a == b'>') s
    → index (s ++ (closer ++ rest)) closer ≡ some (length s)
unfolding index
index-closer [] rest h = unfold has_prefix lit in refl
index-closer (a ∷ s) rest (ha, h) = rw (not_closer a s rest h, index-closer s rest h) refl

trim_right_brace : (s : Text) → trim_right (s ++ (b'}' ∷ 10 ∷ [])) ≡ s ++ (b'}' ∷ [])
unfolding trim_right is_space
trim_right_brace [] = refl
trim_right_brace (a ∷ []) = refl
trim_right_brace (a ∷ b ∷ s) = rw (trim_right_brace (b ∷ s)) refl

-- The text of an object in JSON, which its braces enclose.
abbrev object : Text → Text
object body = b'{' ∷ body ++ (b'}' ∷ [])

trim_object : (body : Text) → trim_space (object body ++ (10 ∷ [])) ≡ object body
unfolding trim_space trim_left is_space
trim_object body =
    ap (λ u. trim_right (b'{' ∷ u)) (append_assoc body (b'}' ∷ []) (10 ∷ []))
    ∙ trim_right_brace (b'{' ∷ body)

Free-append : (sep : ℕ → Bool) (s t : Text) → Free sep s → Free sep t → Free sep (s ++ t)
Free-append sep [] t h k = k
Free-append sep (a ∷ s) t (ha, h) k = (ha, Free-append sep s t h k)

-- What stands before the encoding: the marker and the end of its line.
abbrev header : Text
header = marker ++ (10 ∷ [])

length-header : length header ≡ 13
unfolding lit
length-header = refl

header-Free : Free (λ a. a == b'>') header
unfolding lit
header-Free = (
  refl,
  (
    refl,
    (refl, (refl, (refl, (refl, (refl, (refl, (refl, (refl, (refl, (refl, (refl, tt))))))))))),
  ),
)

-- The parsing of a block whose marker stands behind this prefix, and whose content has no `>`.
parse_meta_at-block :
    (unmarshal : Text → Option RjMeta) (text pre content rest : Text)
    → text ≡ pre ++ (header ++ (content ++ (closer ++ rest)))
    → Free (λ a. a == b'>') content
    → 0 < length content
    → parse_meta_at unmarshal text (length pre) ≡ unmarshal (trim_space content)
unfolding parse_meta_at
parse_meta_at-block unmarshal text pre content rest e clean some_content =
    let tail = closer ++ rest in
    let from_marker : drop (length pre) text ≡ (header ++ content) ++ tail =
      ap (drop (length pre)) e ∙ drop-append pre _ ∙ sym (append_assoc header content tail) in
    let end : index (drop (length pre) text) closer ≡ some (length (header ++ content)) =
      ap (λ u. index u closer) from_marker
      ∙ index-closer (header ++ content) rest (Free-append _ header content header-Free clean) in
    let size : length (header ++ content) ≡ 13 + length content =
      length-append header content ∙ ap (λ k. k + length content) length-header in
    let start : length (pre ++ header) ≡ length pre + 13 =
      length-append pre header ∙ ap (λ k. length pre + k) length-header in
    let count : length pre + length (header ++ content) - (length pre + 13) ≡ length content =
      omega (arith, size) in
    let from_content : drop (length pre + 13) text ≡ content ++ tail =
      ap (λ k. drop k text) (sym start)
      ∙ ap (drop (length (pre ++ header))) (e ∙ sym (append_assoc pre header (content ++ tail)))
      ∙ drop-append (pre ++ header) (content ++ tail) in
    let inside : leb (length pre + length (header ++ content)) (length pre + 13) ≡ false =
      ground (arith, size) in
    let cut : slice (length pre + 13) (length pre + length (header ++ content)) text ≡ content =
      ap (λ k. take k (drop (length pre + 13) text)) count
      ∙ ap (take (length content)) from_content
      ∙ take-append content tail in
    rw (end, parse_meta_at, inside) (ap (λ u. unmarshal (trim_space u)) cut)

text_of_block :
    (marshal : RjMeta → Text) (m : RjMeta) (pre post : Text)
    → pre ++ (format_rj_meta marshal m ++ post)
      ≡ (pre ++ (10 ∷ [])) ++ (header ++ ((marshal m ++ (10 ∷ [])) ++ (closer ++ (10 ∷ post))))
unfolding format_rj_meta
text_of_block marshal m pre post = simp append_assoc

-- A block that `FormatRJMeta` has written is read back by `ParseRJMeta`, in a text that has no `<`
-- before it and anything after it. The encoding is an object, has no `>` (encoding/json escapes it),
-- and is decoded to what was encoded.
pub parse_rj_meta-format_rj_meta :
    (marshal : RjMeta → Text) (unmarshal : Text → Option RjMeta) (m : RjMeta) (body pre post : Text)
    → marshal m ≡ object body
    → Free (λ a. a == b'>') (marshal m)
    → unmarshal (marshal m) ≡ some m
    → Free (λ a. a == b'<') pre
    → parse_rj_meta unmarshal (pre ++ (format_rj_meta marshal m ++ post)) ≡ some m
unfolding parse_rj_meta
parse_rj_meta-format_rj_meta marshal unmarshal m body pre post shape escaped back clean =
    let text = pre ++ (format_rj_meta marshal m ++ post) in
    let content = marshal m ++ (10 ∷ []) in
    let e = text_of_block marshal m pre post in
    let start : index text marker ≡ some (length (pre ++ (10 ∷ []))) =
      ap (λ u. index u marker)
        (e ∙ ap (λ u. (pre ++ (10 ∷ [])) ++ u) (append_assoc marker (10 ∷ []) _))
      ∙ index-marker (pre ++ (10 ∷ [])) _ (Free-append _ pre (10 ∷ []) clean (refl, tt)) in
    let trimmed : trim_space content ≡ marshal m =
      ap (λ u. trim_space (u ++ (10 ∷ []))) shape ∙ trim_object body ∙ sym shape in
    rw (start, parse_rj_meta)
      (parse_meta_at-block unmarshal text (pre ++ (10 ∷ [])) content (10 ∷ post) e
          (Free-append _ (marshal m) (10 ∷ []) escaped (refl, tt))
          (omega (arith, length-append (marshal m) (10 ∷ [])))
        ∙ ap unmarshal trimmed
        ∙ back)
