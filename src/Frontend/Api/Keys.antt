-- ===== src/Frontend/Api/Keys.antt =====
-- The cache entries of web/src/frontend/api.ts.
use mesh2mesh.Base.{
  Text, lit, text_eq, if◌then◌else◌, ◌≡◌, refl, sym, ap, ◌∙◌, Option, none, some, List, [], ◌∷◌,
}
use mesh2mesh.Frontend.Api.{
  Query, me_query, health_query, config_query, tenants_query, peers_query, members_query, query_key,
}

-- The query of a key.
abbrev query_under : Text → Text → Option Query
query_under t kind =
    if text_eq kind (lit "peers")
    then some (peers_query t)
    else if text_eq kind (lit "members")
    then some (members_query t)
    else none

abbrev query_named : Text → Option Query
query_named k =
    if text_eq k (lit "me")
    then some me_query
    else if text_eq k (lit "health")
    then some health_query
    else if text_eq k (lit "config")
    then some config_query
    else if text_eq k (lit "tenants")
    then some tenants_query
    else none

query_of : List Text → Option Query
query_of (k ∷ []) = query_named k
query_of (k ∷ t ∷ kind ∷ []) = query_under t kind
query_of _ = none

query_of-query_key : (q : Query) → query_of (query_key q) ≡ some q
unfolding query_of query_key lit
query_of-query_key me_query = refl
query_of-query_key health_query = refl
query_of-query_key config_query = refl
query_of-query_key tenants_query = refl
query_of-query_key (peers_query t) = refl
query_of-query_key (members_query t) = refl

some-query : {q r : Query} → some q ≡ some r → q ≡ r
some-query h = cc

-- Two queries that share a cache entry are the same query.
query_key-injective : (q r : Query) → query_key q ≡ query_key r → q ≡ r
query_key-injective q r h =
    some-query (sym (query_of-query_key q) ∙ ap query_of h ∙ query_of-query_key r)
