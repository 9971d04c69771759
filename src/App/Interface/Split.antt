-- ===== src/App/Interface/Split.antt =====
-- Which specifications `createInterface` takes (src/app/Cli.cpp).
use mathlib.Core.Path.{ap₂}
use cannect.Base.{
  ◌==◌, if_false, Bool-cases, inl, inr, none, some, [], ◌∷◌, ◌++◌, ◌≡◌, refl, sym, ◌∙◌, ap, ◌↔◌,
  Option-cases, ==_iff,
}
use cannect.Dispatcher.{same_name}
use cannect.Dispatcher.Names.{same_name-eq}
use cannect.Socket as Socket
use cannect.App.Text.{Text, codes, Failure, Result, ok, err}
use cannect.App.Interface.{before, split_spec, interface_of, create_interface}

-- What stands before the first colon and behind it, put together again.
split_spec_sound :
    (spec : Text) (r : Text × Text) → split_spec spec ≡ some r → spec ≡ r.0 ++ (b':' ∷ r.1)
unfolding split_spec
split_spec_sound [] r h = cc
split_spec_sound (c ∷ s) r h = elim (Bool-cases (c == b':')) [
  | inl colon ↦
      let first : some ([], s) ≡ some r = rw colon at h in rw ((==_iff c b':').0 colon) (cc first)
  | inr other ↦ elim (Option-cases (split_spec s)) [
    | inl none_ ↦ absurd (nothing (rw none_ at (rw other at h)))
    | inr ((type, config), found) ↦
        let later : some (c ∷ type, config) ≡ some r = rw found at (rw other at h) in
        ap (λ t. c ∷ t) (split_spec_sound s (type, config) found) ∙ cc later
  ]
]
  where
    nothing : before c none ≡ some r → ⊥
    nothing e = cc

err-ne-ok :
    {e : Failure} {s : Socket.SocketCanInterface}
    → ◌≡◌ {A = Result Socket.SocketCanInterface} (err e) (ok s)
    → ⊥
err-ne-ok h = cc

interface_of-ok :
    (type config' config : Text)
    → interface_of type config' ≡ ok (Socket.new config)
    → (type ≡ codes "socketcan") × (config' ≡ config)
unfolding interface_of
interface_of-ok type config' config h = elim (Bool-cases (same_name type (codes "socketcan"))) [
  | inl same ↦
      let e : ◌≡◌ {A = Result Socket.SocketCanInterface} (ok (Socket.new config'))
          (ok (Socket.new config)) =
        rw same at h in
      (same_name-eq type (codes "socketcan") same, cc e)
  | inr other ↦ absurd (err-ne-ok (sym (if_false _ _ other) ∙ h))
]

create_interface-ok :
    (spec config : Text)
    → create_interface spec ≡ ok (Socket.new config)
    → spec ≡ codes "socketcan:" ++ config
unfolding create_interface
create_interface-ok spec config h = elim (Option-cases (split_spec spec)) [
  | inl none_ ↦ absurd (err-ne-ok (rw (none_, create_interface) at h))
  | inr ((type, config'), found) ↦
      let (named, rest) = interface_of-ok type config' config (rw (found, create_interface) at h) in
      split_spec_sound spec (type, config') found ∙ ap₂ (λ t c. t ++ (b':' ∷ c)) named rest
]

made : (config : Text) → create_interface (codes "socketcan:" ++ config) ≡ ok (Socket.new config)
unfolding create_interface interface_of split_spec same_name
made config = refl

-- `createInterface` makes an interface exactly of a text that begins with "socketcan:"; what stands
-- behind that, colons included, is the interface's name.
pub create_interface_iff :
    (spec config : Text)
    → (create_interface spec ≡ ok (Socket.new config)) ↔ (spec ≡ codes "socketcan:" ++ config)
create_interface_iff spec config =
    (create_interface-ok spec config, λ e. ap create_interface e ∙ made config)
