-- ===== src/Tests/Exp.antt =====
-- exp_小流量控制/ on a short file.
use learning_cpp.Prelude.{
  ◌≡◌, refl, ℤ, Bool, ◌==◌, Option, some, List, [], ◌∷◌, Bytes, codes, length, equal, All,
}
use learning_cpp.Exp.{
  FlagType, CLibrary, load, get_exp_node, judge_exp_node, get_type, is_balnk, trim, skip_front,
  skip_back, new_exp, load_lines, load_line, flag_line, cut, header_line, end_section, insert_new,
  lookup, get_default, contains, same_type, bool_node,
}
use learning_cpp.Exp.Getters.{
  get_bool_value, get_int_value, get_float_value, get_string_value, bool_of, int_of, float_of,
  string_of, Got,
}
use learning_cpp.Exp.Sections.{Entry, Section, found, section_of, answer, IsSection}
use learning_cpp.Exp.Loaded.{file_of, get_value-file_of}
use learning_cpp.Exp.Typed.{as_type}
use learning_cpp.Exp.Trim.{trim_single}

-- Enough of the C library for a test: nothing is in upper case, and a number is its length.
abbrev c_library : CLibrary
c_library = record { to_lower = λ c. c; atoi = λ v. ℤ.pos (length v); atof = length }

abbrev file : Option (List Bytes)
file = some (codes "[default]" ∷ codes "int_size = 10" ∷ [])

not_balnk : is_balnk b'5' ≡ Bool.false
unfolding is_balnk
not_balnk = refl

-- A value of a single byte is lost.
trim_five : trim (b' ' ∷ b'5' ∷ []) ≡ []
unfolding is_balnk trim
trim_five = trim_single (b' ' ∷ []) [] b'5' refl refl not_balnk

abbrev section : Section
section = record {
  name = codes "77";
  entries = (codes "int_size", codes "10") ∷ (codes "int_size", codes "100") ∷ [];
}

abbrev defaults : List Entry
defaults = (codes "an_enable", codes "true") ∷ []

program : Unit {0}
unfolding trim skip_front skip_back is_balnk found section_of answer get_bool_value get_int_value
    get_float_value get_string_value new_exp load load_lines load_line flag_line cut header_line
    end_section insert_new lookup judge_exp_node get_exp_node get_default get_type contains
    same_type equal bool_node
program = tt

-- A flag of the section, a default, and a flag that is nowhere.
get_values :
    (get_int_value c_library
        (codes "77")
        (codes "int_size")
        (new_exp c_library (some (file_of (section ∷ []) defaults)))
      ≡ Got.undefined)
    × (get_bool_value c_library
          (codes "77")
          (codes "an_enable")
          (new_exp c_library (some (file_of (section ∷ []) defaults)))
        ≡ Got.gives Bool.true)
    × (get_bool_value c_library
          (codes "77")
          (codes "a_enable")
          (new_exp c_library (some (file_of (section ∷ []) defaults)))
        ≡ Got.stops 255)
unfolding program
get_values = (refl, refl, refl)

no_equals_size : All (λ x. (x == 61) ≡ Bool.false) (codes "int_size")
no_equals_size = (refl, (refl, (refl, (refl, (refl, (refl, (refl, (refl, tt))))))))

section-IsSection : IsSection c_library section
unfolding program
section-IsSection = record {
  trim_name = refl;
  not_empty = refl;
  lower = refl;
  all_entries = (
    record {
      starts = (refl, refl);
      no_equals = no_equals_size;
      trim_flag = refl;
      trim_value = refl;
      lower = refl;
    },
    (
      record {
        starts = (refl, refl);
        no_equals = no_equals_size;
        trim_flag = refl;
        trim_value = refl;
        lower = refl;
      },
      tt,
    ),
  );
}

defaults-IsSection : IsSection c_library (record { name = codes "default"; entries = defaults })
unfolding program
defaults-IsSection = record {
  trim_name = refl;
  not_empty = refl;
  lower = refl;
  all_entries = (
    record {
      starts = (refl, refl);
      no_equals = (refl, (refl, (refl, (refl, (refl, (refl, (refl, (refl, (refl, tt)))))))));
      trim_flag = refl;
      trim_value = refl;
      lower = refl;
    },
    tt,
  );
}

not_default : equal (codes "77") (codes "default") ≡ Bool.false
unfolding program
not_default = refl

get_value-file_of_example :
    let e = new_exp c_library (some (file_of (section ∷ []) defaults)) in
    let r = answer c_library (section ∷ []) defaults (codes "77") (codes "an_enable") in
    (get_bool_value c_library (codes "77") (codes "an_enable") e
      ≡ bool_of (as_type (get_type (codes "an_enable")) FlagType.bool_type r))
    × (get_int_value c_library (codes "77") (codes "an_enable") e
        ≡ int_of (as_type (get_type (codes "an_enable")) FlagType.int_type r))
    × (get_float_value c_library (codes "77") (codes "an_enable") e
        ≡ float_of (as_type (get_type (codes "an_enable")) FlagType.float_type r))
    × (get_string_value c_library (codes "77") (codes "an_enable") e
        ≡ string_of (as_type (get_type (codes "an_enable")) FlagType.string_type r))
get_value-file_of_example =
    get_value-file_of c_library (section ∷ []) defaults (codes "77") (codes "an_enable")
      ((section-IsSection, not_default), tt) defaults-IsSection
