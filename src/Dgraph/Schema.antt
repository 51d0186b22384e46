-- ===== src/Dgraph/Schema.antt =====
-- The predicates that the schemas of internal/repository/dgraph declare as lists, `[string]`; every
-- other predicate holds one value.
use elysium.Prelude.{String, Bool, ◌||◌, str_eq}

-- Of sessionSchema and serviceAccountSchema; userSchema has none.
unfoldable pub is_list : String → Bool
is_list p =
    str_eq "session.permissions" p
    || str_eq "session.delegated_permissions" p
    || str_eq "session.policy_groups" p
    || str_eq "sa.permissions" p
    || str_eq "dgraph.type" p
