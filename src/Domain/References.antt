-- ===== src/Domain/References.antt =====
-- `_referenced_fields` of pipeline/domain_v2.py, with the fields of a whole operation.
use formalspecgen.Prelude.{true}
use formalspecgen.Prelude.{
  String, ◌≡◌, Bool, List, [], ◌∷◌, ◌++◌, any, all, In, str_eq, any-In, all-In, eq_iff,
}
use mathlib.Core.Path.{subst}
use formalspecgen.Domain.{
  Expr, field_expr, integer_expr, boolean_expr, old_expr, not_expr, binary_expr,
}

-- The set is kept as a list, in which a name may be repeated.
unfoldable pub referenced_fields : Expr → List String
referenced_fields (field_expr name) = name ∷ []
referenced_fields (integer_expr _) = []
referenced_fields (boolean_expr _) = []
referenced_fields (old_expr e) = referenced_fields e
referenced_fields (not_expr e) = referenced_fields e
referenced_fields (binary_expr _ l r) = referenced_fields l ++ referenced_fields r

-- `name in names`
unfoldable pub member : String → List String → Bool
member k names = any (λ n. str_eq n k) names

pub member-In : (k : String) (names : List String) → member k names ≡ true → In k names
unfolding member
member-In k names h =
    let (n, m, e) = any-In (λ n. str_eq n k) names h in subst (λ x. In x names) ((eq_iff n k).0 e) m

-- `left <= right`, of sets
unfoldable pub subset : List String → List String → Bool
subset xs ys = all (λ x. member x ys) xs

pub subset-In : (xs ys : List String) (k : String) → subset xs ys ≡ true → In k xs → In k ys
unfolding subset
subset-In xs ys k h m = member-In k ys (all-In (λ x. member x ys) xs k h m)
