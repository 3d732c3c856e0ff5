-- ===== src/Parse/Listing.antt =====
-- asimap/parse.py: `_p_list_extended`, the arguments of LIST and LSUB; `_p_status_att`.
use asimap.Prelude.{
  ℕ, zero, suc, String, Bool, true, false, not, ◌&&◌, ◌||◌, Option, none, some, List, [], ◌∷◌,
  if◌then◌else◌,
}
use asimap.Prelude.Lists.{length}
use asimap.Parse.{
  Bytes, Parser, raised, next, ◌>>=◌, ◌>>◌, pure, raise, bad_syntax, out_of_fuel, lower_all, expect,
  skip, peek, p_re, is_atom, codes, p_paren_list_of,
}
use asimap.Parse.Strings.{p_mailbox, p_list_mailbox}
use asimap.Parse.Keys.{find_word, same_bytes}
use asimap.Parse.Fetches.{first_of}

-- `ListSelectOpt` and `ListReturnOpt`, each with whether it is among the options
pub record SelectOpts : Type 0 where
  pub subscribed : Bool
  pub remote : Bool
  pub recursivematch : Bool
  pub special_use : Bool

abbrev pub no_select_opts : SelectOpts
no_select_opts = record {
  subscribed = false;
  remote = false;
  recursivematch = false;
  special_use = false;
}

pub record ReturnOpts : Type 0 where
  pub subscribed : Bool
  pub children : Bool
  pub special_use : Bool
  pub status : Option (List String)  -- `list_status_atts`

abbrev pub no_return_opts : ReturnOpts
no_return_opts = record { subscribed = false; children = false; special_use = false; status = none }

-- `list_mailbox`, or `list_patterns`
pub data ListPattern : Type 0 where
  list_mailbox : Bytes → ListPattern
  list_patterns : List Bytes → ListPattern

pub record ListArgs : Type 0 where
  pub select_opts : SelectOpts
  pub mailbox_name : Bytes
  pub pattern_arg : ListPattern
  pub return_opts : ReturnOpts

-- `_p_status_att`
abbrev pub status_names : List String
status_names = "messages" ∷ "recent" ∷ "uidnext" ∷ "uidvalidity" ∷ "unseen" ∷ []

unfoldable pub p_status_att : Parser String
unfolding first_of
p_status_att = first_of status_names >>= λ status. elim status [
  | none ↦ raise bad_syntax
  | some name ↦ pure name
]

abbrev pub add_select : SelectOpts → List (String × SelectOpts)
add_select opts =
    ("subscribed", record opts { subscribed = true })
    ∷ ("remote", record opts { remote = true })
    ∷ ("recursivematch", record opts { recursivematch = true })
    ∷ ("special-use", record opts { special_use = true })
    ∷ []

-- The loop over the selection options
unfoldable pub select_options : ℕ → SelectOpts → Parser SelectOpts
unfolding p_re find_word skip expect
select_options zero opts input = raised out_of_fuel
select_options (suc fuel) opts input = next (p_re is_atom input) λ opt.
    elim (find_word (lower_all opt) (add_select opts)) [
      | none ↦ raise bad_syntax
      | some more ↦ skip ")" >>= λ closed.
          if closed then pure more else (expect " " >> select_options fuel more)
    ]

-- RECURSIVEMATCH wants an option that filters.
unfoldable pub p_list_select_options : Parser SelectOpts
unfolding expect skip select_options
p_list_select_options = expect "(" >> skip ")" >>= λ empty.
    if empty
    then pure no_select_opts
    else (λ input. select_options (suc (length input)) no_select_opts input) >>= λ opts.
        if opts.recursivematch && not (opts.subscribed || opts.special_use)
        then raise bad_syntax
        else pure opts

abbrev pub add_return : ReturnOpts → List (String × ReturnOpts)
add_return opts =
    ("subscribed", record opts { subscribed = true })
    ∷ ("children", record opts { children = true })
    ∷ ("special-use", record opts { special_use = true })
    ∷ []

abbrev pub status_option : ReturnOpts → List String → Parser ReturnOpts
status_option opts [] = raise bad_syntax
status_option opts (a ∷ more) = pure record opts { status = some (a ∷ more) }

-- One return option; STATUS has a list of attributes.
unfoldable pub return_option : ReturnOpts → Bytes → Parser ReturnOpts
unfolding expect p_paren_list_of p_status_att find_word
return_option opts opt =
    if same_bytes (lower_all opt) (codes "status")
    then (expect " " >> p_paren_list_of p_status_att >>= λ atts. status_option opts atts)
    else elim (find_word (lower_all opt) (add_return opts)) [
      | none ↦ raise bad_syntax
      | some more ↦ pure more
    ]

unfoldable pub return_options : ℕ → ReturnOpts → Parser ReturnOpts
unfolding p_re return_option skip expect
return_options zero opts input = raised out_of_fuel
return_options (suc fuel) opts input = next (p_re is_atom input) λ opt.
    return_option opts opt >>= λ more.
    skip ")" >>= λ closed. if closed then pure more else (expect " " >> return_options fuel more)

unfoldable pub p_list_return_options : Parser ReturnOpts
unfolding expect skip return_options
p_list_return_options = expect "(" >> skip ")" >>= λ empty.
    if empty
    then pure no_return_opts
    else (λ input. return_options (suc (length input)) no_return_opts input)

unfoldable pub p_list_mailbox_pattern : Parser Bytes
unfolding p_list_mailbox
p_list_mailbox_pattern = p_list_mailbox >>= λ pattern'.
    pure (if same_bytes (lower_all pattern') (codes "inbox") then codes "inbox" else pattern')

-- `_p_list_extended`, in its three parts
unfoldable pub p_selection : Parser SelectOpts
unfolding peek p_list_select_options expect
p_selection = peek "(" >>= λ paren.
    if paren
    then (p_list_select_options >>= λ opts. expect " " >> pure opts)
    else pure no_select_opts

unfoldable pub p_list_patterns : Parser ListPattern
unfolding peek p_paren_list_of p_list_mailbox_pattern p_list_mailbox
p_list_patterns = peek "(" >>= λ paren.
    if paren
    then (p_paren_list_of p_list_mailbox_pattern >>= λ ps. pure (list_patterns ps))
    else (p_list_mailbox >>= λ name. pure (list_mailbox name))

unfoldable pub p_return : Parser ReturnOpts
unfolding skip expect p_list_return_options
p_return = skip " " >>= λ space.
    if space then (expect "return" >> expect " " >> p_list_return_options) else pure no_return_opts

unfoldable pub p_list_extended : Parser ListArgs
unfolding expect p_selection p_mailbox p_list_patterns p_return
p_list_extended = expect " " >> p_selection >>= λ opts. p_mailbox >>= λ name.
    expect " " >> p_list_patterns >>= λ patterns. p_return >>= λ returned. pure record {
      select_opts = opts;
      mailbox_name = name;
      pattern_arg = patterns;
      return_opts = returned;
    }
