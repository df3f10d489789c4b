-- ===== src/Gateway/Discussions/Queries.antt =====
-- The GraphQL documents of gateway/github_discussion_tools.go, line by line.
use remote_juggler.Prelude.{List, [], ◌∷◌, ◌++◌}
use remote_juggler.Text.{Text, lit, join}

-- The lines, with a line feed between each two.
abbrev lines_text : List Text → Text
lines_text = join 10

-- The discussions of a repository, with a filter of their category.
unfoldable pub list_query : Text → Text
unfolding lit join
list_query filter = lines_text (
    lit "query($owner: String!, $repo: String!, $first: Int!) {"
    ∷ lit "  repository(owner: $owner, name: $repo) {"
    ∷ (lit "    discussions(first: $first, orderBy: {field: CREATED_AT, direction: DESC}"
        ++ (filter ++ lit ") {"))
    ∷ lit "      nodes {"
    ∷ lit "        number"
    ∷ lit "        title"
    ∷ lit "        author { login }"
    ∷ lit "        createdAt"
    ∷ lit "        updatedAt"
    ∷ lit "        url"
    ∷ lit "        labels(first: 10) { nodes { name } }"
    ∷ lit "        category { name id }"
    ∷ lit "        comments { totalCount }"
    ∷ lit "      }"
    ∷ lit "      totalCount"
    ∷ lit "    }"
    ∷ lit "  }"
    ∷ lit "}"
    ∷ [])

unfoldable pub get_query : Text
unfolding lit join
get_query = lines_text (
    lit "query($owner: String!, $repo: String!, $number: Int!) {"
    ∷ lit "  repository(owner: $owner, name: $repo) {"
    ∷ lit "    discussion(number: $number) {"
    ∷ lit "      id"
    ∷ lit "      number"
    ∷ lit "      title"
    ∷ lit "      body"
    ∷ lit "      author { login }"
    ∷ lit "      createdAt"
    ∷ lit "      updatedAt"
    ∷ lit "      url"
    ∷ lit "      labels(first: 20) { nodes { name id } }"
    ∷ lit "      category { name id }"
    ∷ lit "      comments(first: 50) {"
    ∷ lit "        nodes {"
    ∷ lit "          id"
    ∷ lit "          body"
    ∷ lit "          author { login }"
    ∷ lit "          createdAt"
    ∷ lit "        }"
    ∷ lit "        totalCount"
    ∷ lit "      }"
    ∷ lit "    }"
    ∷ lit "  }"
    ∷ lit "}"
    ∷ [])

unfoldable pub search_query : Text
unfolding lit join
search_query = lines_text (
    lit "query($q: String!, $first: Int!) {"
    ∷ lit "  search(query: $q, type: DISCUSSION, first: $first) {"
    ∷ lit "    nodes {"
    ∷ lit "      ... on Discussion {"
    ∷ lit "        number"
    ∷ lit "        title"
    ∷ lit "        body"
    ∷ lit "        author { login }"
    ∷ lit "        createdAt"
    ∷ lit "        url"
    ∷ lit "        labels(first: 10) { nodes { name } }"
    ∷ lit "        category { name }"
    ∷ lit "        comments { totalCount }"
    ∷ lit "      }"
    ∷ lit "    }"
    ∷ lit "    discussionCount"
    ∷ lit "  }"
    ∷ lit "}"
    ∷ [])

unfoldable pub id_query : Text
unfolding lit join
id_query = lines_text (
    lit "query($owner: String!, $repo: String!, $number: Int!) {"
    ∷ lit "  repository(owner: $owner, name: $repo) {"
    ∷ lit "    discussion(number: $number) { id }"
    ∷ lit "  }"
    ∷ lit "}"
    ∷ [])

unfoldable pub reply_mutation : Text
unfolding lit join
reply_mutation = lines_text (
    lit "mutation($discussionId: ID!, $body: String!) {"
    ∷ lit "  addDiscussionComment(input: {discussionId: $discussionId, body: $body}) {"
    ∷ lit "    comment {"
    ∷ lit "      id"
    ∷ lit "      body"
    ∷ lit "      author { login }"
    ∷ lit "      createdAt"
    ∷ lit "      url"
    ∷ lit "    }"
    ∷ lit "  }"
    ∷ lit "}"
    ∷ [])

unfoldable pub lookup_query : Text
unfolding lit join
lookup_query = lines_text (
    lit "query($owner: String!, $repo: String!, $number: Int!) {"
    ∷ lit "  repository(owner: $owner, name: $repo) {"
    ∷ lit "    id"
    ∷ lit "    discussion(number: $number) { id }"
    ∷ lit "    labels(first: 100) {"
    ∷ lit "      nodes { id name }"
    ∷ lit "    }"
    ∷ lit "  }"
    ∷ lit "}"
    ∷ [])

unfoldable pub label_mutation : Text
unfolding lit join
label_mutation = lines_text (
    lit "mutation($labelableId: ID!, $labelIds: [ID!]!) {"
    ∷ lit "  addLabelsToLabelable(input: {labelableId: $labelableId, labelIds: $labelIds}) {"
    ∷ lit "    labelable {"
    ∷ lit "      ... on Discussion {"
    ∷ lit "        labels(first: 20) { nodes { name } }"
    ∷ lit "      }"
    ∷ lit "    }"
    ∷ lit "  }"
    ∷ lit "}"
    ∷ [])
