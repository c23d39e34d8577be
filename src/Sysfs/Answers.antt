-- ===== src/Sysfs/Answers.antt =====
-- What the attributes of src/sysfs.c answer.
use synccom_linux.Prelude.{
  ℕ, ◌≡◌, refl, Bool, true, false, not, ◌&&◌, Option, none, some, List, [], ◌∷◌, String, length,
  if◌then◌else◌, arith,
}
use text.Mathlib.Text.{◌==◌ as str_eq}
use synccom_linux.Registers.{str_to_register_offset}
use synccom_linux.Port.{Port}
use synccom_linux.Port.Usb.{get_register}
use synccom_linux.Sysfs.{
  register_store, register_show, bar0_register_store, bar0_register_show, bar2_register_store,
  bar2_register_show, purge_tx_store, purge_rx_store, append_status_store, append_status_show,
  append_timestamp_store, append_timestamp_show, input_memory_cap_store, input_memory_cap_show,
  output_memory_cap_store, output_memory_cap_show, ignore_timeout_store, ignore_timeout_show,
  rx_multiple_store, rx_multiple_show, tx_modifiers_store, tx_modifiers_show,
}
use synccom_linux.Sysfs.Attributes.{
  Mode, read_only, write_only, read_write, bar0_attribute, debug_attribute, bar0_read_only,
  fcr_attribute, setting_attribute, Show, Store, Attribute, register_attrs, command_attrs,
  info_attrs, settings_attrs, AttributeGroup, attr_groups,
}

-- A show prints a number on every port.
abbrev pub Prints : Option Show → String → Type 0
Prints none name = Unit
Prints (some f) name = (p : Port) → (v : ℕ) × ((f p name).0 ≡ some v)

-- A store takes all of the text, on every port.
abbrev pub TakesAll : Option Store → String → Type 0
TakesAll none name = Unit
TakesAll (some f) name =
    (strtoul : List ℕ → ℕ → ℕ) (p : Port) (buf : List ℕ) → (f strtoul p name buf).0 ≡ length buf

abbrev pub given : {A : Type 0} → Option A → Bool
given none = false
given (some a) = true

-- A file that may be read has a function to show it, and one that may be written has one to store.
abbrev pub is_served : Mode → Bool → Bool → Bool
is_served read_only show store = show
is_served write_only show store = store
is_served read_write show store = show && store

abbrev pub IsAnswering : Attribute → Type 0
IsAnswering a =
    (is_served a.mode (given a.show) (given a.store) ≡ true)
    × Prints a.show a.name
    × TakesAll a.store a.name

abbrev pub AreAnswering : List Attribute → Type 0
AreAnswering [] = Unit
AreAnswering (a ∷ more) = IsAnswering a × AreAnswering more

abbrev named : String → List Attribute → Bool
named name [] = false
named name (a ∷ more) = if str_eq name a.name then true else named name more

-- No two attributes have the same name.
abbrev pub distinct : List Attribute → Bool
distinct [] = true
distinct (a ∷ more) = not (named a.name more) && distinct more

abbrev pub GroupsAnswer : List AttributeGroup → Type 0
GroupsAnswer [] = Unit
GroupsAnswer (group ∷ groups) =
    AreAnswering group.attrs × (distinct group.attrs ≡ true) × GroupsAnswer groups

show_known :
    (p : Port) (name : String) (bar offset : ℕ)
    → str_to_register_offset name ≡ some offset
    → (v : ℕ) × ((register_show p name bar).0 ≡ some v)
unfolding register_show
show_known p name bar offset known = ((get_register p bar offset).0, ground arith)

store_known :
    (strtoul : List ℕ → ℕ → ℕ) (p : Port) (name : String) (buf : List ℕ) (bar offset : ℕ)
    → str_to_register_offset name ≡ some offset
    → (register_store strtoul p name buf bar).0 ≡ length buf
unfolding register_store
store_known strtoul p name buf bar offset known = ground arith

bar0_answers :
    (name : String) (offset : ℕ)
    → str_to_register_offset name ≡ some offset
    → Prints (some bar0_register_show) name × TakesAll (some bar0_register_store) name
unfolding bar0_register_show bar0_register_store
bar0_answers name offset known = (
  λ p. show_known p name 0 offset known,
  λ strtoul p buf. store_known strtoul p name buf 0 offset known,
)

plain_answer :
    (name : String) (offset : ℕ)
    → str_to_register_offset name ≡ some offset
    → IsAnswering (bar0_attribute name)
plain_answer name offset known =
    let (prints, takes) = bar0_answers name offset known in (refl, prints, takes)

debug_answer :
    (name : String) (offset : ℕ)
    → str_to_register_offset name ≡ some offset
    → IsAnswering (debug_attribute name)
debug_answer name offset known =
    let (prints, takes) = bar0_answers name offset known in (refl, prints, takes)

read_only_answer :
    (name : String) (offset : ℕ)
    → str_to_register_offset name ≡ some offset
    → IsAnswering (bar0_read_only name)
read_only_answer name offset known = (refl, (bar0_answers name offset known).0, tt)

fcr_answer : IsAnswering fcr_attribute
unfolding bar2_register_show bar2_register_store str_to_register_offset
fcr_answer = (
  refl,
  λ p. show_known p "fcr" 2 _ refl,
  λ strtoul p buf. store_known strtoul p "fcr" buf 2 _ refl,
)

plain_registers : AreAnswering (register_attrs false)
unfolding str_to_register_offset
plain_registers =
    ((
      plain_answer "fifot" _ refl,
      (
        plain_answer "cmdr" _ refl,
        (
          plain_answer "ccr0" _ refl,
          (
            plain_answer "ccr1" _ refl,
            (
              plain_answer "ccr2" _ refl,
              (
                plain_answer "bgr" _ refl,
                (
                  plain_answer "ssr" _ refl,
                  (
                    plain_answer "smr" _ refl,
                    (
                      plain_answer "tsr" _ refl,
                      (
                        plain_answer "tmr" _ refl,
                        (
                          plain_answer "rar" _ refl,
                          (
                            plain_answer "ramr" _ refl,
                            (
                              plain_answer "ppr" _ refl,
                              (
                                plain_answer "tcr" _ refl,
                                (
                                  read_only_answer "vstr" _ refl,
                                  (
                                    read_only_answer "star" _ refl,
                                    (
                                      plain_answer "imr" _ refl,
                                      (
                                        plain_answer "dpllr" _ refl,
                                        (
                                          plain_answer "fstel" _ refl,
                                          (plain_answer "fstew" _ refl, (fcr_answer, tt)),
                                        ),
                                      ),
                                    ),
                                  ),
                                ),
                              ),
                            ),
                          ),
                        ),
                      ),
                    ),
                  ),
                ),
              ),
            ),
          ),
        ),
      ),
    ))

registers_answer : (debug : Bool) → AreAnswering (register_attrs debug)
unfolding str_to_register_offset
registers_answer false = plain_registers
registers_answer true = (
  debug_answer "bcfl" _ refl,
  (debug_answer "fifobc" _ refl, (debug_answer "fifofc" _ refl, plain_registers)),
)

distinct_registers : (debug : Bool) → distinct (register_attrs debug) ≡ true
distinct_registers false = refl
distinct_registers true = refl

commands_answer : AreAnswering command_attrs
unfolding purge_tx_store purge_rx_store
commands_answer = ((refl, tt, λ strtoul p buf. refl), ((refl, tt, λ strtoul p buf. refl), tt))

info_answers : AreAnswering info_attrs
info_answers = ((refl, (λ p. (_, refl)), tt), ((refl, (λ p. (_, refl)), tt), tt))

setting_answer :
    (name : String) (value : Port → ℕ) (change : (List ℕ → ℕ → ℕ) → Port → List ℕ → ℕ × Port)
    → ((strtoul : List ℕ → ℕ → ℕ) (p : Port) (buf : List ℕ) → (change strtoul p buf).0 ≡ length buf)
    → IsAnswering (setting_attribute name value change)
setting_answer name value change counts = (refl, (λ p. (value p, refl)), counts)

settings_answer : AreAnswering settings_attrs
unfolding append_status_store append_timestamp_store input_memory_cap_store output_memory_cap_store
    ignore_timeout_store rx_multiple_store tx_modifiers_store
settings_answer =
    ((
      setting_answer "append_status" append_status_show append_status_store (λ strtoul p buf. refl),
      (
        setting_answer "append_timestamp" append_timestamp_show append_timestamp_store
            (λ strtoul p buf. refl),
        (
          setting_answer "input_memory_cap" input_memory_cap_show input_memory_cap_store
              (λ strtoul p buf. refl),
          (
            setting_answer "output_memory_cap" output_memory_cap_show output_memory_cap_store
                (λ strtoul p buf. refl),
            (
              setting_answer "ignore_timeout" ignore_timeout_show ignore_timeout_store
                  (λ strtoul p buf. refl),
              (
                setting_answer "rx_multiple" rx_multiple_show rx_multiple_store
                    (λ strtoul p buf. refl),
                (
                  setting_answer "tx_modifiers" tx_modifiers_show tx_modifiers_store
                      (λ strtoul p buf. refl),
                  tt,
                ),
              ),
            ),
          ),
        ),
      ),
    ))

-- In each of the four groups of attributes, in a debug build or not: the attributes have different names;
-- one whose file may be read has a function to show it, one whose file may be written has one to store;
-- every function that shows prints a number on every port, and every function that stores
-- takes all of the text that is written, whatever the text and the number read from it.
pub attr_groups_lem : (debug : Bool) → GroupsAnswer (attr_groups debug)
attr_groups_lem debug = (
  registers_answer debug,
  distinct_registers debug,
  (commands_answer, refl, (info_answers, refl, (settings_answer, refl, tt))),
)
