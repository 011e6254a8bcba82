-- ===== src/PciNames/Laws.antt =====
-- Which PCI classes and subclasses of kernel/helper/pci_class_names/pci_class_names.cpp have names.
use Prim.Native.String.{String}
use esz_os.Base.{
  ◌⊎◌, inl, inr, Bool-cases, ℕ, ◌<◌, ◌≡◌, refl, Bool, true, false, ◌&&◌, ◌||◌, not, leb,
  if◌then◌else◌, all_below, all_below_sound, arith,
}
use esz_os.PciNames.{resolve_class_name, class_name_of, sub_class_name_of}

unfoldable pub is_empty : String → Bool
is_empty String.[] = true
is_empty (String.◌∷◌ c s) = false

-- The codes that the source's comments mark as reserved.
unfoldable pub is_reserved : ℕ → Bool
is_reserved code = (leb 0x14 code && leb code 0x3F) || (leb 0x41 code && leb code 0xFE)

named : ℕ → Bool
unfolding is_empty is_reserved class_name_of
named code = if is_empty (class_name_of code) then is_reserved code else not (is_reserved code)

all_named : all_below 256 named ≡ true
unfolding named all_below is_empty is_reserved class_name_of
all_named = refl

reserved_sub : (c s : ℕ) → (is_reserved c ≡ false) ⊎ (sub_class_name_of c s ≡ "")
unfolding is_reserved sub_class_name_of
reserved_sub c s = elim (Bool-cases (leb c 17)) [
  | inl low ↦ inl (ground (arith, low))
  | inr high ↦ inr (ground (arith, high))
]

-- A class has a name exactly if its code is not one of those that the source marks as reserved,
-- and a reserved class has no subclass name either.
pub resolve_class_name_named :
    (class_code sub_class : ℕ)
    → class_code < 256
    → (is_empty ((resolve_class_name class_code sub_class).class_name) ≡ is_reserved class_code)
      × ((is_reserved class_code ≡ false)
          ⊎ ((resolve_class_name class_code sub_class).sub_class_name ≡ ""))
unfolding named resolve_class_name sub_class_name_of is_reserved
resolve_class_name_named c s lt =
    (ground (arith, all_below_sound 256 named c all_named lt), reserved_sub c s)
