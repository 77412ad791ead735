-- ===== src/Daemon/ConfigFile.antt =====
-- src/daemon/config-file.hpp, src/daemon/config-file.cpp. What boost reads out of an input is a
-- parameter, and a section is of any type; a callback acts on a state of any type and may throw.
pub mod Subscribed
use ndns.Prelude.{
  Bool, true, false, Option, none, some, List, [], ◌∷◌, String, if◌then◌else◌, ◌⊎◌, inl, inr,
}
use text.Mathlib.Text.{◌==◌ as str_eq}

-- What a callback throws: std::out_of_range, ConfigFile::Error, or anything else.
pub data Thrown : Type 0 where
  out_of_range config_error other_exception : Thrown

module _ (Section S : Type 0) where
  abbrev pub Callback : Type 0
  Callback = S → Option Thrown × S

  -- the section, isDryRun and the file's name
  abbrev pub ConfigSectionHandler : Type 0
  ConfigSectionHandler = Section → Bool → String → Callback

  -- the file's name, the section's name, the section and isDryRun
  abbrev pub UnknownConfigSectionHandler : Type 0
  UnknownConfigSectionHandler = String → String → Section → Bool → Callback

  pub record ConfigFile : Type 0 where
    pub unknown_section_callback : UnknownConfigSectionHandler
    pub subscriptions : List (String × ConfigSectionHandler)
    pub global : List (String × Section)

  unfoldable pub make_config_file : UnknownConfigSectionHandler → ConfigFile
  make_config_file callback = record {
    unknown_section_callback = callback;
    subscriptions = [];
    global = [];
  }

  unfoldable pub throw_error_on_unknown_section : UnknownConfigSectionHandler
  throw_error_on_unknown_section filename name section is_dry_run s = (some config_error, s)

  unfoldable pub ignore_unknown_section : UnknownConfigSectionHandler
  ignore_unknown_section filename name section is_dry_run s = (none, s)

  -- m_subscriptions[sectionName] = subscriber
  assign :
      String
      → ConfigSectionHandler
      → List (String × ConfigSectionHandler)
      → List (String × ConfigSectionHandler)
  assign name subscriber [] = (name, subscriber) ∷ []
  assign name subscriber (e ∷ es) =
      let rest = assign name subscriber es in
      if str_eq e.0 name then (name, subscriber) ∷ es else e ∷ rest

  unfoldable pub add_section_handler : String → ConfigSectionHandler → ConfigFile → ConfigFile
  unfolding assign
  add_section_handler name subscriber c = record c {
    subscriptions = assign name subscriber c.subscriptions;
  }

  -- m_subscriptions.at(name), none where it throws std::out_of_range
  unfoldable pub subscriber_at :
      String → List (String × ConfigSectionHandler) → Option ConfigSectionHandler
  subscriber_at name [] = none
  subscriber_at name (e ∷ es) =
      let rest = subscriber_at name es in if str_eq e.0 name then some e.1 else rest

  -- catch (const std::out_of_range&): also that of the subscriber itself
  recover : Callback → Option Thrown × S → Option Thrown × S
  recover callback (none, s) = (none, s)
  recover callback (some out_of_range, s) = callback s
  recover callback (some config_error, s) = (some config_error, s)
  recover callback (some other_exception, s) = (some other_exception, s)

  handle : ConfigFile → Bool → String → String × Section → Option ConfigSectionHandler → Callback
  unfolding recover
  handle c is_dry_run filename i none s = c.unknown_section_callback filename i.0 i.1 is_dry_run s
  handle c is_dry_run filename i (some subscriber) s =
      recover (c.unknown_section_callback filename i.0 i.1 is_dry_run)
        (subscriber i.1 is_dry_run filename s)

  -- The body of the loop of `process`
  process_section : ConfigFile → Bool → String → String × Section → Callback
  unfolding handle
  process_section c is_dry_run filename i =
      handle c is_dry_run filename i (subscriber_at i.0 c.subscriptions)

  -- A callback, and what follows it if it throws nothing.
  then_next : (S → Option Thrown × S) → Option Thrown × S → Option Thrown × S
  then_next next (none, s) = next s
  then_next next (some t, s) = (some t, s)

  process_sections : ConfigFile → Bool → String → List (String × Section) → Callback
  unfolding process_section then_next
  process_sections c is_dry_run filename [] s = (none, s)
  process_sections c is_dry_run filename (i ∷ is) s =
      then_next (process_sections c is_dry_run filename is)
        (process_section c is_dry_run filename i s)

  unfoldable pub process : ConfigFile → Bool → String → Callback
  unfolding process_sections
  process c is_dry_run filename = process_sections c is_dry_run filename c.global

  -- parse(config, isDryRun, filename)
  unfoldable pub parse_section :
      List (String × Section) → Bool → String → ConfigFile → S → (Option Thrown × S) × ConfigFile
  unfolding process
  parse_section config is_dry_run filename c s =
      let c' = record c { global = config } in (process c' is_dry_run filename s, c')

  -- parse(input, isDryRun, filename), given what read_info makes of the input
  unfoldable pub parse :
      (String → Option (List (String × Section)))
      → String
      → Bool
      → String
      → ConfigFile
      → S
      → (Option Thrown × S) × ConfigFile
  unfolding parse_section
  parse read_info input is_dry_run filename c s = elim (read_info input) [
    | none ↦ ((some config_error, s), c)
    | some config ↦ parse_section config is_dry_run filename c s
  ]

  -- parse(filename, isDryRun), given the content of the file, none where it cannot be read
  unfoldable pub parse_file :
      (String → Option String)
      → (String → Option (List (String × Section)))
      → String
      → Bool
      → ConfigFile
      → S
      → (Option Thrown × S) × ConfigFile
  unfolding parse
  parse_file content read_info filename is_dry_run c s = elim (content filename) [
    | none ↦ ((some config_error, s), c)
    | some input ↦ parse read_info input is_dry_run filename c s
  ]

-- parseYesNo, on the text of the node
unfoldable pub parse_yes_no : String → Bool ⊎ Thrown
parse_yes_no value =
    if str_eq value "yes"
    then inl true
    else if str_eq value "no"
    then inl false
    else inr config_error
