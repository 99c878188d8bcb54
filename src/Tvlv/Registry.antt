-- ===== src/Tvlv/Registry.antt =====
-- The list of containers as a map from type and version to a value.
use batman_adv.Common.{ℕ, ◌≡◌, true, ◌&&◌, ◌==◌, if◌then◌else◌, arith, List, [], ◌∷◌, none, some}
use batman_adv.Tvlv.{
  Container, container_get, container_remove, container_register, container_unregister,
}

-- No two containers of the list have the same type and version.
abbrev pub Single : List Container → Type 0
Single [] = Unit
Single (c ∷ cs) = (container_get cs c.type c.version ≡ none) × Single cs

get-remove :
    (cs : List Container) (t v t' v' : ℕ)
    → Single cs
    → container_get (container_remove cs t v) t' v'
      ≡ (if (t == t') && (v == v') then none else container_get cs t' v')
unfolding container_get container_remove
get-remove [] t v t' v' s = ground arith
get-remove (c ∷ cs) t v t' v' s = ground (arith, get-remove cs t v t' v' s.1)

remove-Single : (cs : List Container) (t v : ℕ) → Single cs → Single (container_remove cs t v)
unfolding container_get container_remove
remove-Single [] t v s = tt
remove-Single (c ∷ cs) t v s =
    ground (arith, remove-Single cs t v s.1, get-remove cs t v c.type c.version s.1)

-- In a list with one container for each type and version, after a registration that got its memory
-- the lookup gives the new value for its type and version, and what it gave before for all others;
-- and the list keeps one container for each.
pub get-register :
    (cs : List Container) (t v t' v' : ℕ) (value : List ℕ)
    → Single cs
    → let cs' = container_register true cs t v (some value) in
      (container_get cs' t' v' ≡ (
        if (t == t') && (v == v')
        then some (record { type = t; version = v; value = value })
        else container_get cs t' v'))
      × Single cs'
unfolding container_register container_get
get-register cs t v t' v' value s =
    ground (arith, get-remove cs t v t' v' s, get-remove cs t v t v s, remove-Single cs t v s)

-- In a list with one container for each type and version, a type and version is not found after it
-- is unregistered, all others are as before, and the list keeps one container for each.
pub get-unregister :
    (cs : List Container) (t v t' v' : ℕ)
    → Single cs
    → let cs' = container_unregister cs t v in
      (container_get cs' t' v' ≡ (if (t == t') && (v == v') then none else container_get cs t' v'))
      × Single cs'
unfolding container_unregister
get-unregister cs t v t' v' s = (get-remove cs t v t' v' s, remove-Single cs t v s)
