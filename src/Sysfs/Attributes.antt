-- ===== src/Sysfs/Attributes.antt =====
-- The attributes of src/sysfs.c: for each its name, the mode of its file, and the functions that show and
-- store it; and the groups that they are in.
use synccom_linux.Prelude.{ℕ, Bool, Option, none, some, List, [], ◌∷◌, ◌++◌, String, if◌then◌else◌}
use synccom_linux.Port.{Port}
use synccom_linux.Sysfs.{
  bar0_register_store, bar0_register_show, bar2_register_store, bar2_register_show, purge_tx_store,
  purge_rx_store, output_memory_show, input_memory_show, tx_modifiers_store, tx_modifiers_show,
  ignore_timeout_store, ignore_timeout_show, rx_multiple_store, rx_multiple_show,
  append_status_store, append_status_show, append_timestamp_store, append_timestamp_show,
  input_memory_cap_store, input_memory_cap_show, output_memory_cap_store, output_memory_cap_show,
}

-- `SYSFS_READ_ONLY_MODE`, `SYSFS_WRITE_ONLY_MODE` and `SYSFS_READ_WRITE_MODE`
pub data Mode : Type 0 where
  read_only write_only read_write : Mode

-- A function that shows an attribute, given the name of the attribute: what it prints, if anything.
abbrev pub Show : Type 0
Show = Port → String → Option ℕ × Port

-- A function that stores to an attribute, given its name and the text: what it returns.
abbrev pub Store : Type 0
Store = (List ℕ → ℕ → ℕ) → Port → String → List ℕ → ℕ × Port

-- `struct kobj_attribute`; `none` is a 0 for a function.
pub record Attribute : Type 0 where
  pub name : String
  pub mode : Mode
  pub show : Option Show
  pub store : Option Store

abbrev pub bar0_attribute : String → Attribute
bar0_attribute name = record {
  name = name;
  mode = read_write;
  show = some bar0_register_show;
  store = some bar0_register_store;
}

-- The attributes that a debug build adds; their files may not be written, though there is a function.
abbrev pub debug_attribute : String → Attribute
debug_attribute name = record {
  name = name;
  mode = read_only;
  show = some bar0_register_show;
  store = some bar0_register_store;
}

abbrev pub debug_register_attrs : List Attribute
debug_register_attrs =
    debug_attribute "bcfl" ∷ debug_attribute "fifobc" ∷ debug_attribute "fifofc" ∷ []

abbrev pub bar0_read_only : String → Attribute
bar0_read_only name = record {
  name = name;
  mode = read_only;
  show = some bar0_register_show;
  store = none;
}

abbrev pub fcr_attribute : Attribute
fcr_attribute = record {
  name = "fcr";
  mode = read_write;
  show = some bar2_register_show;
  store = some bar2_register_store;
}

-- `register_attrs`, with the macro DEBUG or without.
abbrev pub register_attrs : Bool → List Attribute
register_attrs debug =
    (if debug then debug_register_attrs else [])
    ++ (bar0_attribute "fifot"
        ∷ bar0_attribute "cmdr"
        ∷ bar0_attribute "ccr0"
        ∷ bar0_attribute "ccr1"
        ∷ bar0_attribute "ccr2"
        ∷ bar0_attribute "bgr"
        ∷ bar0_attribute "ssr"
        ∷ bar0_attribute "smr"
        ∷ bar0_attribute "tsr"
        ∷ bar0_attribute "tmr"
        ∷ bar0_attribute "rar"
        ∷ bar0_attribute "ramr"
        ∷ bar0_attribute "ppr"
        ∷ bar0_attribute "tcr"
        ∷ bar0_read_only "vstr"
        ∷ bar0_read_only "star"
        ∷ bar0_attribute "imr"
        ∷ bar0_attribute "dpllr"
        ∷ bar0_attribute "fstel"
        ∷ bar0_attribute "fstew"
        ∷ fcr_attribute
        ∷ [])

abbrev command_attribute : String → (Port → List ℕ → ℕ × Port) → Attribute
command_attribute name run = record {
  name = name;
  mode = write_only;
  show = none;
  store = some (λ strtoul p _ buf. run p buf);
}

abbrev pub command_attrs : List Attribute
command_attrs =
    command_attribute "purge_tx" purge_tx_store ∷ command_attribute "purge_rx" purge_rx_store ∷ []

abbrev info_attribute : String → (Port → ℕ) → Attribute
info_attribute name value = record {
  name = name;
  mode = read_only;
  show = some (λ p _. (some (value p), p));
  store = none;
}

abbrev pub info_attrs : List Attribute
info_attrs =
    info_attribute "output_memory" output_memory_show
    ∷ info_attribute "input_memory" input_memory_show
    ∷ []

abbrev pub setting_attribute :
    String → (Port → ℕ) → ((List ℕ → ℕ → ℕ) → Port → List ℕ → ℕ × Port) → Attribute
setting_attribute name value change = record {
  name = name;
  mode = read_write;
  show = some (λ p _. (some (value p), p));
  store = some (λ strtoul p _ buf. change strtoul p buf);
}

abbrev pub settings_attrs : List Attribute
settings_attrs =
    setting_attribute "append_status" append_status_show append_status_store
    ∷ setting_attribute "append_timestamp" append_timestamp_show append_timestamp_store
    ∷ setting_attribute "input_memory_cap" input_memory_cap_show input_memory_cap_store
    ∷ setting_attribute "output_memory_cap" output_memory_cap_show output_memory_cap_store
    ∷ setting_attribute "ignore_timeout" ignore_timeout_show ignore_timeout_store
    ∷ setting_attribute "rx_multiple" rx_multiple_show rx_multiple_store
    ∷ setting_attribute "tx_modifiers" tx_modifiers_show tx_modifiers_store
    ∷ []

-- `struct attribute_group`: a directory below a port's.
pub record AttributeGroup : Type 0 where
  pub name : String
  pub attrs : List Attribute

abbrev pub port_registers_attr_group : Bool → AttributeGroup
port_registers_attr_group debug = record { name = "registers"; attrs = register_attrs debug }

abbrev pub port_commands_attr_group : AttributeGroup
port_commands_attr_group = record { name = "commands"; attrs = command_attrs }

abbrev pub port_info_attr_group : AttributeGroup
port_info_attr_group = record { name = "info"; attrs = info_attrs }

abbrev pub port_settings_attr_group : AttributeGroup
port_settings_attr_group = record { name = "settings"; attrs = settings_attrs }

-- The four of them.
abbrev pub attr_groups : Bool → List AttributeGroup
attr_groups debug =
    port_registers_attr_group debug
    ∷ port_commands_attr_group
    ∷ port_info_attr_group
    ∷ port_settings_attr_group
    ∷ []
