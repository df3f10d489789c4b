-- ===== src/Gateway/Github/Files.antt =====
-- `UpdateFile` and `PatchFile` of gateway/github_tools.go.
use remote_juggler.Prelude.{
  ℕ, zero, suc, ◌+◌, Bool, true, none, some, List, [], ◌∷◌, ◌++◌, not, ◌&&◌, ◌==◌, nat_eq, length,
  take, drop, if◌then◌else◌,
}
use remote_juggler.Prelude.Int.{pos}
use remote_juggler.Text.{Text, lit, text_eq, is_empty, index, print}
use remote_juggler.Dict.{Dict}
use remote_juggler.Result.{Result, ok, err}
use remote_juggler.Http.{HttpResponse, Transport}
use remote_juggler.Gateway.Values.{Values, mcp_text_result}
use remote_juggler.Gateway.Github.Request.{
  GithubCodecs, FileContent, do_request, truncate_str, on_body, with_args, refused, contents_url,
  arg,
}

-- `strings.Count` of a text that is not empty; each step of the loop takes a byte at least.
unfoldable pub count_from : ℕ → Text → Text → ℕ
unfolding index
count_from zero s old = 0
count_from (suc fuel) s old = elim (index s old) [
  | none ↦ 0
  | some i ↦ suc (count_from fuel (drop (i + length old) s) old)
]

abbrev pub count : Text → Text → ℕ
count s old = count_from (suc (length s)) s old

-- `strings.Replace` of the first occurrence
unfoldable pub replace_first : Text → Text → Text → Text
unfolding index
replace_first s old new = elim (index s old) [
  | none ↦ s
  | some i ↦ take i s ++ (new ++ drop (i + length old) s)
]

module _ {W J : Type 0} (t : Transport W) (v : Values J) (k : GithubCodecs W J) where
  -- A file is put with this content; the digest is left out if there is none.
  abbrev pub put_payload : Text → Text → Text → Text
  put_payload args content sha = v.must_marshal (
      v.object (
        (lit "message", v.text (arg t v k args (lit "message")))
        ∷ (lit "content", v.text (k.encode_value content))
        ∷ (lit "branch", v.text (arg t v k args (lit "branch")))
        ∷ (if is_empty sha then [] else (lit "sha", v.text sha) ∷ [])))

  abbrev pub put_file :
      Text → Text → (HttpResponse → Text → W → Result Text × W) → W → Result Text × W
  put_file args payload next w =
      on_body t v k (lit "read put response") next
        (do_request t v k (lit "PUT") (contents_url t v k args) (some payload) w)

  abbrev stored_status : HttpResponse → Bool
  stored_status r = not (r.status_code == 200) && not (r.status_code == 201)

  abbrev pub get_file : Text → (HttpResponse → Text → W → Result Text × W) → W → Result Text × W
  get_file args next w = on_body t v k (lit "read file") next (
      do_request t v k (lit "GET")
        (contents_url t v k args ++ (lit "?ref=" ++ arg t v k args (lit "branch"))) none w)

  abbrev put_fields : Text → Text → Dict J
  put_fields args body =
      (lit "path", v.text (k.put_path body))
      ∷ (lit "sha", v.text (k.put_sha body))
      ∷ (lit "branch", v.text (arg t v k args (lit "branch")))
      ∷ []

  abbrev updated : Text → HttpResponse → Text → W → Result Text × W
  updated args r body w = (
    if stored_status r
        then refused t v k (lit "update file returned ") r body
        else mcp_text_result v
            (v.object (put_fields args body ++ ((lit "updated", v.flag true) ∷ []))),
    w,
  )

  abbrev update : Text → HttpResponse → Text → W → Result Text × W
  update args r body w =
      let sha = if r.status_code == 200 then k.sha_of body else [] in
      put_file args (put_payload args (arg t v k args (lit "content")) sha) (updated args) w

  abbrev update_required : Text → List Text
  update_required args =
      arg t v k args (lit "owner")
      ∷ arg t v k args (lit "repo")
      ∷ arg t v k args (lit "path")
      ∷ arg t v k args (lit "content")
      ∷ arg t v k args (lit "message")
      ∷ arg t v k args (lit "branch")
      ∷ []

  -- `UpdateFile`
  unfoldable pub update_file : Text → W → Result Text × W
  unfolding lit print truncate_str do_request mcp_text_result
  update_file args w =
      with_args t v k (lit "UpdateFile") args (update_required args)
        (lit "owner, repo, path, content, message, and branch are required")
        (get_file args (update args)) w

  -- The text of a file as the contents API gives it.
  abbrev pub decoded_file : FileContent → Result Text
  decoded_file f =
      if f.encoding == lit "base64"
      then elim (k.decode_value f.content) [
        | err e ↦ err (lit "decode base64: " ++ e)
        | ok s ↦ ok s
      ]
      else ok f.content

  abbrev not_found : Text → Text → Result Text
  not_found args current = mcp_text_result v (
      v.object (
        (lit "error", v.text (lit "old_content not found in file"))
        ∷ (lit "path", v.text (arg t v k args (lit "path")))
        ∷ (lit "branch", v.text (arg t v k args (lit "branch")))
        ∷ (lit "file_length", v.number (pos (length current)))
        ∷ []))

  abbrev pub patched : Text → ℕ → HttpResponse → Text → W → Result Text × W
  patched args occurrences r body w = (
    if stored_status r
        then refused t v k (lit "patch file returned ") r body
        else mcp_text_result v (
            v.object (
              put_fields args body
              ++ ((lit "patched", v.flag true)
                  ∷ (lit "occurrences_found", v.number (pos occurrences))
                  ∷ (lit "replaced", v.number (pos 1))
                  ∷ []))),
    w,
  )

  -- The payload of a patch always has the digest.
  abbrev pub patch_payload : Text → Text → Text → Text
  patch_payload args content sha = v.must_marshal (
      v.object (
        (lit "message", v.text (arg t v k args (lit "message")))
        ∷ (lit "content", v.text (k.encode_value content))
        ∷ (lit "branch", v.text (arg t v k args (lit "branch")))
        ∷ (lit "sha", v.text sha)
        ∷ []))

  -- The part of `PatchFile` after the file's decoding.
  unfoldable pub patch_text : Text → Text → Text → W → Result Text × W
  unfolding lit print truncate_str do_request mcp_text_result count_from replace_first
  patch_text args sha current w =
      let old = arg t v k args (lit "old_content") in
      let occurrences = count current old in
      if occurrences == 0
      then (not_found args current, w)
      else put_file args
          (patch_payload args (replace_first current old (arg t v k args (lit "new_content"))) sha)
          (patched args occurrences) w

  abbrev pub patch_file_content : Text → FileContent → W → Result Text × W
  patch_file_content args f w = elim (decoded_file f) [
    | err e ↦ (err e, w)
    | ok current ↦ patch_text args f.sha current w
  ]

  abbrev pub patch : Text → HttpResponse → Text → W → Result Text × W
  patch args r body w =
      if r.status_code == 200
      then elim (k.unmarshal_file body) [
        | err e ↦ (err (lit "parse file response: " ++ e), w)
        | ok f ↦ patch_file_content args f w
      ]
      else (refused t v k (lit "file not found: GitHub returned ") r body, w)

  abbrev pub patch_required : Text → List Text
  patch_required args =
      arg t v k args (lit "owner")
      ∷ arg t v k args (lit "repo")
      ∷ arg t v k args (lit "path")
      ∷ arg t v k args (lit "old_content")
      ∷ arg t v k args (lit "message")
      ∷ arg t v k args (lit "branch")
      ∷ []

  -- `PatchFile`
  unfoldable pub patch_file : Text → W → Result Text × W
  unfolding lit print truncate_str do_request mcp_text_result patch_text
  patch_file args w =
      with_args t v k (lit "PatchFile") args (patch_required args)
        (lit "owner, repo, path, old_content, message, and branch are required")
        (get_file args (patch args)) w
