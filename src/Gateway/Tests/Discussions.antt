-- ===== src/Gateway/Tests/Discussions.antt =====
-- The theorem on the labels of a discussion, at a concrete lookup.
use remote_juggler.Prelude.{◌≡◌, refl, [], ◌∷◌}
use remote_juggler.Text.{lit, text_eq, same}
use remote_juggler.Result.{ok, err}
use remote_juggler.Gateway.Discussions.{DiscussionCodecs, LabelLookup}
use remote_juggler.Gateway.Discussions.Labels.{label_found}
use remote_juggler.Gateway.Discussions.Labels.Known.{
  known_ids, unknown_names, Labelled, label_found-Labelled,
}
use remote_juggler.Gateway.Tests.Tools.{answering, values}
use remote_juggler.Gateway.Tests.Exports.{github_codecs}

abbrev discussion_codecs : DiscussionCodecs
discussion_codecs = record {
  unmarshal_graphql = λ s. ok (record { errors = []; payload = s });
  discussions_of = ok;
  discussion_of = ok;
  search_of = ok;
  id_of = ok;
  comment_of = ok;
  lookup_of = λ s. err s;
  applied_of = λ s. ok (s ∷ []);
  arg_names = λ s. s ∷ [];
}

-- The label `a` is listed twice.
abbrev a_lookup : LabelLookup
a_lookup = record {
  discussion_id = lit "D1";
  labels = (lit "a", lit "1") ∷ (lit "b", lit "2") ∷ (lit "a", lit "3") ∷ [];
}

-- Of `b`, `c` and `a` the repository has no `c`.
label_found-Labelled_example :
    Labelled answering values github_codecs discussion_codecs
      (lit "D1")
      (known_ids a_lookup.labels (lit "b" ∷ lit "c" ∷ lit "a" ∷ []))
      (unknown_names a_lookup.labels (lit "b" ∷ lit "c" ∷ lit "a" ∷ []))
      7
      (label_found answering values github_codecs discussion_codecs
        (lit "b" ∷ lit "c" ∷ lit "a" ∷ [])
        a_lookup
        7)
unfolding lit
label_found-Labelled_example =
    label_found-Labelled answering values github_codecs discussion_codecs
      (lit "b" ∷ lit "c" ∷ lit "a" ∷ []) a_lookup 7 refl

label_sorting_test :
    (known_ids a_lookup.labels (lit "b" ∷ lit "c" ∷ lit "a" ∷ []) ≡ lit "2" ∷ lit "3" ∷ [])
    × (unknown_names a_lookup.labels (lit "b" ∷ lit "c" ∷ lit "a" ∷ []) ≡ lit "c" ∷ [])
unfolding lit same
label_sorting_test = (refl, refl)
