-- ===== src/Dispatcher/Names.antt =====
-- The names of the interfaces of a dispatcher are pairwise distinct.
use mathlib.Core.Path.{ap₂}
use cannect.Base.{
  ◌≡◌, refl, sym, ◌∙◌, ap, subst, arith, true, false, none, some, List, [], ◌∷◌, ◌++◌, map,
  if_cases, if_true, if_false, Bool-cases, inl, inr,
}
use cannect.Dispatcher.{Name, DispatcherEntry, same_name, find_entry, change_entry}

abbrev pub names : List DispatcherEntry → List Name
names [] = []
names (e ∷ entries) = e.name ∷ names entries

-- No name of the list is this one.
abbrev pub Absent : Name → List Name → Type 0
Absent n [] = Unit {0}
Absent n (m ∷ ms) = (same_name m n ≡ false) × Absent n ms

abbrev pub Distinct : List Name → Type 0
Distinct [] = Unit {0}
Distinct (m ∷ ms) = Absent m ms × Distinct ms

same_name_sym : (a b : Name) → same_name a b ≡ same_name b a
unfolding same_name
same_name_sym [] [] = refl
same_name_sym [] (y ∷ b) = refl
same_name_sym (x ∷ a) [] = refl
same_name_sym (x ∷ a) (y ∷ b) = ground (arith, same_name_sym a b)

pub same_name_refl : (a : Name) → same_name a a ≡ true
unfolding same_name
same_name_refl [] = refl
same_name_refl (x ∷ a) = ground (arith, same_name_refl a)

pub same_name-eq : (a b : Name) → same_name a b ≡ true → a ≡ b
unfolding same_name
same_name-eq [] [] h = refl
same_name-eq [] (y ∷ b) h = cc
same_name-eq (x ∷ a) [] h = cc
same_name-eq (x ∷ a) (y ∷ b) h = ground (arith, same_name-eq a b)

found_differs : {e : DispatcherEntry} → some e ≡ none → ⊥
found_differs h = cc

find_entry-Absent :
    (entries : List DispatcherEntry) (name : Name)
    → find_entry entries name ≡ none
    → Absent name (names entries)
unfolding find_entry
find_entry-Absent [] name e = tt
find_entry-Absent (x ∷ entries) name e = elim (Bool-cases (same_name x.name name)) [
  | inl same ↦ absurd (found_differs (sym (if_true _ _ same) ∙ e))
  | inr other ↦ (other, find_entry-Absent entries name (sym (if_false _ _ other) ∙ e))
]

Absent-snoc :
    (n m : Name) (ms : List Name) → Absent n ms → same_name m n ≡ false → Absent n (ms ++ m ∷ [])
Absent-snoc n m [] a e = (e, tt)
Absent-snoc n m (x ∷ ms) a e = (a.0, Absent-snoc n m ms a.1 e)

Distinct-snoc : (n : Name) (ms : List Name) → Distinct ms → Absent n ms → Distinct (ms ++ n ∷ [])
Distinct-snoc n [] d a = (tt, tt)
Distinct-snoc n (m ∷ ms) d a =
    (Absent-snoc m n ms d.0 (same_name_sym n m ∙ a.0), Distinct-snoc n ms d.1 a.1)

names-append : (es fs : List DispatcherEntry) → names (es ++ fs) ≡ names es ++ names fs
names-append [] fs = refl
names-append (e ∷ es) fs = ap (λ t. e.name ∷ t) (names-append es fs)

pub Distinct-added :
    (entries : List DispatcherEntry) (e : DispatcherEntry)
    → Distinct (names entries)
    → find_entry entries e.name ≡ none
    → Distinct (names (entries ++ e ∷ []))
Distinct-added entries e d absent =
    subst Distinct (sym (names-append entries (e ∷ [])))
      (Distinct-snoc e.name (names entries) d (find_entry-Absent entries e.name absent))

pub names-change_entry :
    (f : DispatcherEntry → DispatcherEntry) (entries : List DispatcherEntry) (name : Name)
    → ((e : DispatcherEntry) → (f e).name ≡ e.name)
    → names (change_entry f entries name) ≡ names entries
unfolding change_entry
names-change_entry f [] name keeps = refl
names-change_entry f (e ∷ entries) name keeps =
    if_cases (λ (es : List DispatcherEntry). names es ≡ e.name ∷ names entries)
      (same_name e.name name) (λ _. ap (λ n. n ∷ names entries) (keeps e))
      (λ _. ap (λ t. e.name ∷ t) (names-change_entry f entries name keeps))

pub names-map :
    (f : DispatcherEntry → DispatcherEntry) (entries : List DispatcherEntry)
    → ((e : DispatcherEntry) → (f e).name ≡ e.name)
    → names (map f entries) ≡ names entries
names-map f [] keeps = refl
names-map f (e ∷ entries) keeps = ap₂ ◌∷◌ (keeps e) (names-map f entries keeps)
