-- ===== src/Packs/Registered.antt =====
-- The registry after any registrations: the last one of a token wins.
use clausa_lens.Prelude.{
  String, Option, none, some, List, [], ◌∷◌, ◌==◌, string_eq, ◌&&◌, not, ◌≡◌, refl, ap, ◌∙◌, inl,
  inr, arith, lookup, lookup-insert, if◌then◌else◌, Option-cases,
}
use clausa_lens.Packs.Registry.{Factory, Registry, register, resolve, resolved}

-- The registrations of a process, in order.
unfoldable pub register_all : List (String × Option Factory) → Registry → Registry
register_all [] r = r
register_all ((name, factory) ∷ rest) r = register_all rest (register name factory r)

abbrev or_else : {A : Type 0} → Option A → Option A → Option A
or_else (some a) b = some a
or_else none b = b

-- The last factory that is not nil of the registrations under a token that is not empty.
unfoldable pub last_factory : String → List (String × Option Factory) → Option Factory
last_factory token [] = none
last_factory token ((name, factory) ∷ rest) =
    or_else (last_factory token rest) (if name == token && not (name == "") then factory else none)

lookup-register :
    (name token : String) (factory : Option Factory) (r : Registry)
    → lookup token (register name factory r)
      ≡ or_else (if name == token && not (name == "") then factory else none) (lookup token r)
unfolding register
lookup-register name token none r = ground arith
lookup-register name token (some factory) r = ground (arith, lookup-insert name token factory r)

or_else_assoc : {A : Type 0} (a b c : Option A) → or_else a (or_else b c) ≡ or_else (or_else a b) c
or_else_assoc (some a) b c = refl
or_else_assoc none b c = refl

lookup-register_all :
    (token : String) (rs : List (String × Option Factory)) (r : Registry)
    → lookup token (register_all rs r) ≡ or_else (last_factory token rs) (lookup token r)
unfolding register_all last_factory
lookup-register_all token [] r = refl
lookup-register_all token ((name, factory) ∷ rest) r =
    lookup-register_all token rest (register name factory r)
    ∙ ap (or_else (last_factory token rest)) (lookup-register name token factory r)
    ∙ or_else_assoc (last_factory token rest) _ (lookup token r)

-- After any registrations, in order, a token resolves to what the factory of its last registration
-- returns, where a registration under the empty token or of a nil factory does not count, and to no
-- pack where it has none.
pub resolve-register_all :
    (token : String) (rs : List (String × Option Factory))
    → resolve token (register_all rs []) ≡ resolved (last_factory token rs)
unfolding resolve lookup
resolve-register_all token rs = elim (Option-cases (last_factory token rs)) [
  | inl nothing ↦ rw (lookup-register_all token rs [], nothing) refl
  | inr (factory, last) ↦ rw (lookup-register_all token rs [], last) refl
]
