-- ===== src/Scope.antt =====
-- The class scopes of src/entry.cc, and the helpers on scopes of src/profiler.cc.
pub mod Laws
use jcoz.Base.{ℕ, Bool, true, false, not, ◌&&◌, ◌||◌, List, [], ◌∷◌, Option, none, some, ◌==◌}
use jcoz.Text.{Bytes, text_eq, strstr, replace, drop_last}

-- Does a pointer into the signature, or null, equal the signature's start plus `k`?
abbrev pub points_at : Option ℕ → ℕ → Bool
points_at none k = false
points_at (some i) k = i == k

-- strstr(class_sig, prefix) == class_sig + 1
unfoldable pub is_class_fqn_prefix : Bytes → Bytes → Bool
is_class_fqn_prefix prefix class_sig = points_at (strstr class_sig prefix) 1

-- std::find_if over the scopes, compared with the end
unfoldable pub contains_class_fqn_prefix : List Bytes → Bytes → Bool
contains_class_fqn_prefix [] class_sig = false
contains_class_fqn_prefix (scope ∷ elements) class_sig =
    is_class_fqn_prefix scope class_sig || contains_class_fqn_prefix elements class_sig

unfoldable pub is_in_allowed_scope : List Bytes → List Bytes → Bytes → Bool
is_in_allowed_scope ignored_scopes search_scopes class_sig =
    not (contains_class_fqn_prefix ignored_scopes class_sig)
    && contains_class_fqn_prefix search_scopes class_sig

-- The two checks of CreateJMethodIDsForClass: the class is the prefix of the signature, and all of
-- it but the last byte.
unfoldable pub is_progress_class : Bytes → Bytes → Bool
is_progress_class progress_class klass_sig =
    points_at (strstr klass_sig progress_class) 0 && text_eq (drop_last klass_sig) progress_class

unfoldable pub prepare_scope : Bytes → Bytes
unfolding replace
prepare_scope scope = replace b'.' b'/' scope
