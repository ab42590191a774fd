-- ===== src/Tests/Spawn.antt =====
-- A parser that finds the last value of each option, and two executor processes.
use r_faa_s.Common.{
  ◌≡◌, refl, ap, Bool, true, false, Option, none, some, List, [], ◌∷◌, ◌==◌, ◌&&◌, ◌∙◌, ◌⊎◌,
  if◌then◌else◌,
}
use r_faa_s.Common.Int.{pos, negsuc, ltb_ℤ}
use r_faa_s.ResourceManager.Messages.{c_string}
use r_faa_s.Worker.Options.{
  Name, index, Value, Word, dashed, value, Item, given, unmatched, words_of, last_given, is_plain,
  are_plain, OptionParser, opts,
}
use r_faa_s.ExecutorManager.Spawn.{ExecutorSettings, ManagerAddress, ProcessRequest, spawn_words}
use r_faa_s.ExecutorManager.Spawn.Passed.{Fits, intended, spawned_options}

abbrev found_in : List Word → Name → Option Value
found_in [] name = none
found_in (value v ∷ words) name = found_in words name
found_in (dashed name' ∷ []) name = none
found_in (dashed name' ∷ dashed name'' ∷ words) name = found_in (dashed name'' ∷ words) name
found_in (dashed name' ∷ value v ∷ words) name = elim (found_in words name) [
  | some v' ↦ some v'
  | none ↦ if index name' == index name then some v else none
]

abbrev or_else : Option Value → Option Value → Option Value
or_else first second = elim second [ some v ↦ some v | none ↦ first ]

found_in-words_of :
    (items : List Item) (name : Name) → found_in (words_of items) name ≡ last_given items name
found_in-words_of [] name = refl
found_in-words_of (given name' v ∷ items) name =
    ap (or_else (if index name' == index name then some v else none)) (found_in-words_of items name)
found_in-words_of (unmatched v ∷ items) name = found_in-words_of items name

-- No word that is neither an option nor the value of one starts with a dash.
abbrev takes_all : List Word → Bool
takes_all [] = true
takes_all (value v ∷ words) = is_plain v && takes_all words
takes_all (dashed name' ∷ []) = true
takes_all (dashed name' ∷ dashed name'' ∷ words) = takes_all (dashed name'' ∷ words)
takes_all (dashed name' ∷ value v ∷ words) = takes_all words

takes_all-words_of : (items : List Item) → takes_all (words_of items) ≡ are_plain items
takes_all-words_of [] = refl
takes_all-words_of (given name' v ∷ items) = takes_all-words_of items
takes_all-words_of (unmatched v ∷ items) = ap (λ b. is_plain v && b) (takes_all-words_of items)

abbrev parse_words : List Word → Option (Name → Option Value)
parse_words words = if takes_all words then some (found_in words) else none

parse_words-words_of :
    (items : List Item)
    → (are_plain items ≡ true → parse_words (words_of items) ≡ some (last_given items))
      × (are_plain items ≡ false → parse_words (words_of items) ≡ none)
parse_words-words_of items =
    let same : found_in (words_of items) ≡ last_given items =
      λ i name. found_in-words_of items name i in
    (
      λ plain.
          ap (λ b. if b then some (found_in (words_of items)) else none)
            (takes_all-words_of items ∙ plain)
          ∙ ap some same,
      λ dash.
          ap (λ b. if b then some (found_in (words_of items)) else none)
            (takes_all-words_of items ∙ dash),
    )

abbrev last_value_parser : OptionParser
last_value_parser = record { parse = parse_words; parse-words = parse_words-words_of }

abbrev request : ProcessRequest
request = record {
  listen_address = 49 ∷ 48 ∷ 0 ∷ 0 ∷ [];
  listen_port = pos 10000;
  input_buf_size = pos 1024;
  output_buf_size = pos 2048;
  func_buf_size = pos 15000;
  hot_timeout = negsuc 0;
  core_start_index = pos 0;
}

abbrev settings : ExecutorSettings
settings = record {
  use_docker = false;
  repetitions = pos 100;
  warmup_iters = pos 0;
  recv_buffer_size = pos 32;
  max_inline_data = pos 0;
  pin_threads = true;
}

abbrev accounting : ManagerAddress
accounting = record {
  addr = 49 ∷ [];
  port = pos 10001;
  secret = pos 7;
  r_addr = pos 4096;
  r_key = pos 9;
}

request-Fits :
    (docker : Bool) → Fits request (record settings { use_docker = docker }) accounting (pos 4)
request-Fits docker = record {
  listen_port = refl;
  input_buf_size = refl;
  output_buf_size = refl;
  func_buf_size = refl;
  hot_timeout = refl;
  core_start_index = refl;
  repetitions = refl;
  warmup_iters = refl;
  recv_buffer_size = refl;
  max_inline_data = refl;
  lease_cores = refl;
  mgr_port = refl;
  mgr_secret = refl;
  r_addr = refl;
  r_key = refl;
}

-- The same in a container: the size of the output is lost.
in_container :
    (words : List Word) × (spawn_words request
        (record settings { use_docker = true })
        accounting
        (pos 4)
      ≡ some words)
    × ((((true && ltb_ℤ (pos 2048) (pos 0)) ≡ true) × (opts last_value_parser words ≡ none))
        ⊎ (((true && ltb_ℤ (pos 2048) (pos 0)) ≡ false)
            × (opts last_value_parser words
                ≡ some (
                    intended
                      (49 ∷ 48 ∷ [])
                      (pos 1)
                      request
                      (record settings { use_docker = true })
                      accounting
                      (pos 4)))))
in_container =
    spawned_options last_value_parser (49 ∷ 48 ∷ []) request (record settings { use_docker = true })
      accounting (pos 4) (unfold c_string in refl) (request-Fits true)
