-- ===== src/BciHits.antt =====
-- src/bci_hits.h and src/bci_hits.cc: how often each bytecode index was chosen for an experiment.
pub mod OrderedMap
pub mod Laws
pub mod Counts
pub mod Signatures
pub mod Printed
use jcoz.Base.{ℕ, zero, suc, ◌+◌, ◌%◌, ◌^◌, Bool, List, [], ◌∷◌, ◌++◌, Option, none, some, ltb}
use jcoz.Base.Int.{ℤ, ltb_ℤ}
use jcoz.Text.{Bytes}
use OrderedMap.{Map, adjust, lookup}

-- hit_freq_t, and the two levels above it
abbrev pub HitFreq : Type 0
HitFreq = Map ℤ ℕ

abbrev pub LineFreq : Type 0
LineFreq = Map ℤ HitFreq

pub record BciHits : Type 0 where
  pub freqs : Map ℕ LineFreq
  pub declaring_classes : Map ℕ Bytes

abbrev pub no_hits : BciHits
no_hits = record { freqs = []; declaring_classes = [] }

-- An `unsigned int`.
abbrev pub increment : ℕ → ℕ
increment n = (n + 1) % 2 ^ 32

-- _freqs[method_id][line_number][bci]++; _declaring_classes[method_id] = class_fqn;
unfoldable pub add_hit : Bytes → ℕ → ℤ → ℤ → BciHits → BciHits
add_hit class_fqn method_id line_number bci h = record {
  freqs =
      adjust ltb method_id [] (adjust ltb_ℤ line_number [] (adjust ltb_ℤ bci 0 increment)) h.freqs;
  declaring_classes = adjust ltb method_id [] (λ _. class_fqn) h.declaring_classes;
}

-- The lines of the dump, before they are formatted.
pub data DumpLine : Type 0 where
  title : DumpLine
  for_class : Option Bytes → DumpLine
  line_hits : ℤ → HitFreq → DumpLine

unfoldable pub dump_lines : LineFreq → List DumpLine
dump_lines [] = []
dump_lines ((line_number, bcis) ∷ lines) = line_hits line_number bcis ∷ dump_lines lines

unfoldable pub dump_methods : Map ℕ Bytes → Map ℕ LineFreq → List DumpLine
unfolding dump_lines
dump_methods classes [] = []
dump_methods classes ((method_id, lines) ∷ methods) =
    for_class (lookup ltb method_id classes) ∷ (dump_lines lines ++ dump_methods classes methods)

-- create_dump; its deallocations are in Signatures
unfoldable pub create_dump : BciHits → List DumpLine
unfolding dump_methods
create_dump h = title ∷ dump_methods h.declaring_classes h.freqs
