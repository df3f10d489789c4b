-- ===== src/Gateway/Github/Patches.antt =====
-- What a patch does to a file.
use remote_juggler.Prelude.{
  ℕ, suc, ◌≡◌, refl, ap, ◌∙◌, true, false, none, some, any, Option-cases, inl, inr, List, [], ◌∷◌,
  ◌++◌, ◌==◌, nat_eq, arith, length, take-append, drop-append_both,
}
use remote_juggler.Text.{Text, lit, is_empty, has_prefix, index}
use remote_juggler.Text.Laws.{has_prefix-append}
use remote_juggler.Result.{Result, ok, err}
use remote_juggler.Http.{HttpResponse, Transport}
use remote_juggler.Gateway.Values.{Values}
use remote_juggler.Gateway.Github.Request.{
  GithubCodecs, FileContent, do_request, contents_url, on_body, with_args, arg,
}
use remote_juggler.Gateway.Github.Files.{
  count, count_from, replace_first, patch_text, patched, patch_file, patch_required, decoded_file,
  patch, patch_file_content, get_file,
}

-- The text is the first of its kind in a longer one: it does not stand at any earlier place.
abbrev pub First : Text → Text → Text → Type 0
First old [] after = Unit {0}
First old (a ∷ before) after =
    (has_prefix (a ∷ before ++ (old ++ after)) old ≡ false) × First old before after

index-First :
    (old before after : Text)
    → First old before after
    → index (before ++ (old ++ after)) old ≡ some (length before)
unfolding index
index-First [] [] [] h = refl
index-First [] [] (b ∷ after) h = refl
index-First (a ∷ old) [] after h = rw (has_prefix-append (a ∷ old) after) refl
index-First old (a ∷ before) after (later, h) = rw (later, index-First old before after h) refl

replace_first-First :
    (old new before after : Text)
    → First old before after
    → replace_first (before ++ (old ++ after)) old new ≡ before ++ (new ++ after)
unfolding replace_first
replace_first-First old new before after h =
    rw
      (
        replace_first,
        index-First old before after h,
        take-append before (old ++ after),
        drop-append_both before old after,
      )
      refl

suc_ne_zero : (n : ℕ) → (suc n == 0) ≡ false
suc_ne_zero n = ground arith

count-First :
    (old before after : Text)
    → First old before after
    → (count (before ++ (old ++ after)) old == 0) ≡ false
unfolding count_from
count-First old before after h = rw (count_from, index-First old before after h) (suc_ne_zero _)

count-none : (s old : Text) → index s old ≡ none → (count s old == 0) ≡ true
unfolding count_from
count-none s old h = rw (count_from, h) refl

module _ {W J : Type 0} (t : Transport W) (v : Values J) (k : GithubCodecs W J) where
  on_body-world :
      (what : Text) (next : HttpResponse → Text → W → Result Text × W) (o : Result HttpResponse × W)
      → ((r : HttpResponse) (body : Text) (w : W) → (next r body w).1 ≡ w)
      → (on_body t v k what next o).1 ≡ o.1
  on_body-world what next (err e, w) still = refl
  on_body-world what next (ok r, w) still = elim (Option-cases r.read_error) [
    | inl whole ↦ rw (on_body, whole) (still r r.body w)
    | inr (e, broken) ↦ rw (on_body, broken) refl
  ]

  -- The request that the contents API takes for a new text of a file that has this digest.
  abbrev pub put_request : Text → Text → Text → W → Result HttpResponse × W
  put_request args content sha w =
      do_request t v k (lit "PUT")
        (k.api_base
          ++ (lit "/repos/"
              ++ (v.arg_text args (lit "owner") ++ (lit "/" ++ v.arg_text args (lit "repo"))))
          ++ (lit "/contents/" ++ v.arg_text args (lit "path")))
        (some (
          v.must_marshal (
            v.object (
              (lit "message", v.text (v.arg_text args (lit "message")))
              ∷ (lit "content", v.text (k.encode_value content))
              ∷ (lit "branch", v.text (v.arg_text args (lit "branch")))
              ∷ (lit "sha", v.text sha)
              ∷ []))))
        w

  patch_text-First :
      (args sha before after : Text) (w : W)
      → First (v.arg_text args (lit "old_content")) before after
      → (patch_text t v k args sha (before ++ (v.arg_text args (lit "old_content") ++ after)) w).1
        ≡ (put_request args (before ++ (v.arg_text args (lit "new_content") ++ after)) sha w).1
  unfolding patch_text
  patch_text-First args sha before after w h =
      let old = v.arg_text args (lit "old_content") in
      let new = v.arg_text args (lit "new_content") in
      rw (patch_text, count-First old before after h, replace_first-First old new before after h)
        (on_body-world (lit "read put response")
          (patched t v k args (count (before ++ (old ++ after)) old))
          (put_request args (before ++ (new ++ after)) sha w) (λ r body w'. refl))

  parsed_args :
      (tool args : Text) (required : List Text) (message : Text) (next : W → Result Text × W)
      (w : W)
      → v.args_error tool args ≡ none
      → any is_empty required ≡ false
      → with_args t v k tool args required message next w ≡ next w
  parsed_args tool args required message next w parsed given = rw (with_args, parsed, given) refl

  read_body :
      (what : Text) (next : HttpResponse → Text → W → Result Text × W) (r : HttpResponse) (w : W)
      → r.read_error ≡ none
      → on_body t v k what next (ok r, w) ≡ next r r.body w
  read_body what next r w whole =
      ap
        (λ o. elim o as (λ x. Result Text × W) [
          | some e ↦ (err (what ++ (lit ": " ++ e)), w)
          | none ↦ next r r.body w
        ])
        whole

  abbrev decoded_patch : Text → Text → W → Result Text → Result Text × W
  decoded_patch args sha w (err e) = (err e, w)
  decoded_patch args sha w (ok current) = patch_text t v k args sha current w

  patch_content :
      (args : Text) (f : FileContent) (w : W) (o : Result Text)
      → decoded_file t v k f ≡ o
      → patch_file_content t v k args f w ≡ decoded_patch args f.sha w o
  patch_content args f w (err e) h = rw (patch_file_content, h) refl
  patch_content args f w (ok current) h = rw (patch_file_content, h) refl

  patch_found :
      (args : Text) (r : HttpResponse) (f : FileContent) (w : W)
      → r.status_code ≡ 200
      → k.unmarshal_file r.body ≡ ok f
      → patch t v k args r r.body w ≡ decoded_patch args f.sha w (decoded_file t v k f)
  patch_found args r f w found file =
      let good : (r.status_code == 200) ≡ true = ground (arith, found) in
      rw (patch, good, file) (patch_content args f w (decoded_file t v k f) refl)

  -- A patch with all its arguments, of a file that GitHub gives it and that can be decoded, sends after the
  -- reading of the file one request, to put the file with the first place of the old text replaced by the new
  -- one and everything before and after it as it was, under the digest that came with the file, and
  -- nothing after that request.
  pub patch_file-First :
      (args before after : Text) (w w1 : W) (r : HttpResponse) (f : FileContent)
      → v.args_error (lit "PatchFile") args ≡ none
      → any is_empty (patch_required t v k args) ≡ false
      → do_request t v k
          (lit "GET")
          (contents_url t v k args ++ (lit "?ref=" ++ v.arg_text args (lit "branch")))
          none
          w
        ≡ (ok r, w1)
      → r.read_error ≡ none
      → r.status_code ≡ 200
      → k.unmarshal_file r.body ≡ ok f
      → decoded_file t v k f ≡ ok (before ++ (v.arg_text args (lit "old_content") ++ after))
      → First (v.arg_text args (lit "old_content")) before after
      → (patch_file t v k args w).1
        ≡ (put_request args (before ++ (v.arg_text args (lit "new_content") ++ after)) f.sha w1).1
  unfolding patch_file
  patch_file-First args before after w w1 r f parsed given read whole found file text h =
      ap (λ o. o.1)
        (parsed_args (lit "PatchFile") args (patch_required t v k args)
            (lit "owner, repo, path, old_content, message, and branch are required")
            (get_file t v k args (patch t v k args)) w parsed given
          ∙ ap (on_body t v k (lit "read file") (patch t v k args)) read
          ∙ read_body (lit "read file") (patch t v k args) r w1 whole
          ∙ patch_found args r f w1 found file
          ∙ ap (decoded_patch args f.sha w1) text)
      ∙ patch_text-First args f.sha before after w1 h

  -- If the old text is not in the file, nothing is sent.
  pub patch_text_missing :
      (args sha current : Text) (w : W)
      → index current (arg t v k args (lit "old_content")) ≡ none
      → (patch_text t v k args sha current w).1 ≡ w
  unfolding patch_text
  patch_text_missing args sha current w h =
      rw (patch_text, count-none current (arg t v k args (lit "old_content")) h) refl
