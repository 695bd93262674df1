-- ===== src/Detour/Fnid/Table.antt =====
-- The search over a table of stubs against a list of modules.
use ps3_plugins.Base.{
  ℕ, zero, suc, ◌+◌, ◌*◌, ◌<◌, ◌≡◌, refl, sym, ◌≢◌, Bool, true, false, Option, none, some, List, [],
  ◌∷◌, arith, ◌==◌, if◌then◌else◌, ==_iff, ==_ne, Bytes, same, length, All,
}
use ps3_plugins.ProcessMemory.{Memory}
use ps3_plugins.Detour.Fnid.{
  byte_at, same_text, StubKind, export_stub, ssize_at, count_at, name_at, fnids_at, stubs_at,
  find_fnid, find_stub, address_table, find_export_by_name,
}

-- What a stub says: the name of a module, and its functions by number, each with its descriptor.
pub record Library : Type 0 where
  pub name : Bytes
  pub functions : List (ℕ × ℕ)

abbrev pub lookup : ℕ → List (ℕ × ℕ) → Option ℕ
lookup fnid [] = none
lookup fnid ((f, opd) ∷ fs) = if f == fnid then some opd else lookup fnid fs

-- The first library of that name that has the number; 0 if there is none.
unfoldable pub find_in : List Library → Bytes → ℕ → ℕ
find_in [] name fnid = 0
find_in (l ∷ ls) name fnid =
    let rest = find_in ls name fnid in
    if same l.name name
    then elim (lookup fnid l.functions) [ some opd ↦ opd | none ↦ rest ]
    else rest

-- A C string in memory; its bytes are not 0.
abbrev pub TextAt : Memory → ℕ → Bytes → Type 0
TextAt m a [] = byte_at m a ≡ 0
TextAt m a (c ∷ cs) = (byte_at m a ≡ c) × (c ≢ 0) × TextAt m (a + 1) cs

abbrev pub FunctionsAt : Memory → ℕ → ℕ → ℕ → List (ℕ × ℕ) → Type 0
FunctionsAt m fnids stubs i [] = Unit
FunctionsAt m fnids stubs i ((f, opd) ∷ fs) =
    (m (fnids + i * 4) ≡ f) × (m (stubs + i * 4) ≡ opd) × FunctionsAt m fnids stubs (i + 1) fs

-- The stubs of the libraries, one behind the other, and an end.
abbrev pub TableAt : StubKind → Memory → ℕ → List Library → Type 0
TableAt kind m a [] = ssize_at m a ≢ kind.ssize
TableAt kind m a (l ∷ ls) =
    (ssize_at m a ≡ kind.ssize)
    × (count_at m a ≡ length l.functions)
    × TextAt m (name_at m a) l.name
    × FunctionsAt m (fnids_at m a) (stubs_at m a) 0 l.functions
    × TableAt kind m (a + kind.size) ls

same_text_lem :
    (m : Memory) (a : ℕ) (text name : Bytes)
    → TextAt m a text
    → All (λ c. c ≢ 0) name
    → same_text m a name ≡ same text name
unfolding same_text same
same_text_lem m a [] [] h nonzero = rw h refl
same_text_lem m a [] (c ∷ cs) h (ne, _) = rw (h, ==_ne 0 c (λ e. ne (sym e))) refl
same_text_lem m a (t ∷ ts) [] (e, ne, h) nonzero = rw (e, ==_ne t 0 ne) refl
same_text_lem m a (t ∷ ts) (c ∷ cs) (e, ne, h) (_, nonzero) =
    rw (e, same_text_lem m (a + 1) ts cs h nonzero) refl

find_fnid_lem :
    (m : Memory) (fnids stubs fnid i : ℕ) (fs : List (ℕ × ℕ))
    → FunctionsAt m fnids stubs i fs
    → find_fnid m fnids stubs fnid (length fs) i ≡ lookup fnid fs
unfolding find_fnid
find_fnid_lem m fnids stubs fnid i [] h = refl
find_fnid_lem m fnids stubs fnid i ((f, opd) ∷ fs) (e, d, h) =
    rw (e, d, find_fnid_lem m fnids stubs fnid (i + 1) fs h) refl

branches :
    (s : Bool) (o rest : Option ℕ) (r : ℕ)
    → rest ≡ some r
    → (if s then elim o as (λ _. Option ℕ) [ some opd ↦ some opd | none ↦ rest ] else rest)
      ≡ some (if s then elim o as (λ _. ℕ) [ some opd ↦ opd | none ↦ r ] else r)
branches true (some opd) rest r e = refl
branches true none rest r e = e
branches false o rest r e = e

pub find_stub_lem :
    (kind : StubKind) (m : Memory) (name : Bytes) (fnid : ℕ)
    → All (λ c. c ≢ 0) name
    → (ls : List Library) (a fuel : ℕ) → length ls < fuel
    → TableAt kind m a ls
    → find_stub kind m name fnid fuel a ≡ some (find_in ls name fnid)
unfolding find_stub find_in
find_stub_lem kind m name fnid nonzero ls a zero lt h = absurd (omega arith)
find_stub_lem kind m name fnid nonzero [] a (suc fuel) lt h = rw (==_ne _ _ h) refl
find_stub_lem kind m name fnid nonzero (l ∷ ls) a (suc fuel) lt (e, c, t, f, h) =
    rw
      (
        (==_iff _ _).1 e,
        c,
        same_text_lem m (name_at m a) l.name name t nonzero,
        find_fnid_lem m (fnids_at m a) (stubs_at m a) fnid 0 l.functions f,
      )
      (branches (same l.name name) (lookup fnid l.functions) _ _
        (find_stub_lem kind m name fnid nonzero ls (a + kind.size) fuel (omega arith) h))

-- A search over a table of exports gives what its libraries say, and a null pointer if nothing does.
pub find_export_by_name_lem :
    (m : Memory) (name : Bytes) (fnid : ℕ) (ls : List Library) (fuel : ℕ)
    → All (λ c. c ≢ 0) name
    → length ls < fuel
    → TableAt export_stub m (address_table m) ls
    → find_export_by_name fuel m name fnid ≡ some (find_in ls name fnid)
unfolding find_export_by_name
find_export_by_name_lem m name fnid ls fuel nonzero lt table =
    find_stub_lem export_stub m name fnid nonzero ls (address_table m) fuel lt table
