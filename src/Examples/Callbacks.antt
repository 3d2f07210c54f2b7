-- ===== src/Examples/Callbacks.antt =====
-- crates/hmcl-plugin-sdk/src/future.rs: one callback from its pair to its completion.
use aura_rust_runtime_host.Base.{
  ℕ, List, ◌⊎◌, ◌≡◌, ◌≢◌, refl, true, false, [], ◌∷◌, some, none, Result, ok, err, arith,
}
use aura_rust_runtime_host.Codec.Errors.{Error, Error_new, unavailable}
use aura_rust_runtime_host.Codec.Values.{Value, bool}
use aura_rust_runtime_host.Futures.Table.{lookup, contains_key, insert}
use aura_rust_runtime_host.Futures.Registry.{
  Registry, Registry_new, Capability, pair, close, set_state, successor, Callback_complete, poll,
  vacant_from, pending,
}
use aura_rust_runtime_host.Futures.Vacancy.{IsId, vacant_from-found}
use aura_rust_runtime_host.Futures.States.{Sound, Issued, Registry_new-Sound}
use aura_rust_runtime_host.Futures.Pair.{full, pair-Sound, pair_lem}
use aura_rust_runtime_host.Futures.History.{
  start, after, paired, completed, closed_all, Reaches-Sound, close-poll,
}
use aura_rust_runtime_host.Futures.Sections
use aura_rust_runtime_host.Futures.Sections.{Sections, fresh, update, begin_cancel, end_cancel}
use aura_rust_runtime_host.Futures.Coherence.{Coherent}
use aura_rust_runtime_host.Futures.Interleavings.{Reaches-Coherent}
use aura_rust_runtime_host.Futures.Terminal.{poll-Reaches, Callback_complete_once}

-- A registry that gave out one pair, and the capability it gave.
abbrev one_pair : Registry
one_pair = (pair Registry_new).1

abbrev given : Capability
given = record { id = 1; entry = 0 }

one_pair-Sound : Sound one_pair
one_pair-Sound = pair-Sound Registry_new Registry_new-Sound

given-Issued : Issued one_pair given
unfolding pair lookup insert set_state successor contains_key
given-Issued = record { made = omega arith; waits = λ p. refl }

abbrev answer : Result Error Value
answer = ok (bool true)

abbrev settled_once : Registry
settled_once = (Callback_complete true one_pair given answer).1

given_completes : (Callback_complete true one_pair given answer).0 ≡ ok tt
unfolding Callback_complete pair lookup insert set_state successor contains_key
given_completes = refl

Callback_complete_once_example :
    (poll settled_once given ≡ some answer)
    × ((e : Error) × (Callback_complete true settled_once given (ok (bool false))
          ≡ (err e, settled_once)))
Callback_complete_once_example =
    Callback_complete_once one_pair settled_once given answer (ok (bool false)) one_pair-Sound
      given-Issued given_completes start

settled_once-Sound : Sound settled_once
settled_once-Sound =
    Reaches-Sound Registry_new settled_once Registry_new-Sound
      (after (after start paired) (completed given answer given-Issued))

given_settled : Issued settled_once given
unfolding Callback_complete pair lookup insert set_state successor contains_key
given_settled = record { made = omega arith; waits = λ p. absurd cc }

poll-Reaches_example : poll (close settled_once) given ≡ some answer
poll-Reaches_example =
    poll-Reaches settled_once (close settled_once) given answer settled_once-Sound given_settled
      (λ i. Callback_complete_once_example.0 i) (after start closed_all)

close-poll_example : poll (close one_pair) given ≢ none
close-poll_example = close-poll one_pair given one_pair-Sound given-Issued

abbrev one_key : List (ℕ × ℕ)
one_key = (1, 0) ∷ []

vacant_from-found_example :
    (id : ℕ) × (vacant_from 2 one_key 1 ≡ some id) × IsId id × (contains_key one_key id ≡ false)
vacant_from-found_example = vacant_from-found one_key 1 (omega arith, omega arith) (omega arith)

pair_lem_example :
    ((full one_pair ≡ true) × (pair one_pair ≡ (err (Error_new unavailable), one_pair)))
    ⊎ ((full one_pair ≡ false)
        × (c : Capability) × (next : Registry) × (pair one_pair ≡ (ok c, next))
        × IsId c.id
        × (contains_key one_pair.entries c.id ≡ false)
        × Issued next c
        × (next.states c.entry ≡ pending)
        × ((i : ℕ) → c.id ≢ i → lookup next.entries i ≡ lookup one_pair.entries i))
pair_lem_example = pair_lem one_pair one_pair-Sound

-- A second pair is made between the two sections of the first pair's `cancel`.
abbrev second : Capability
second = record { id = 2; entry = 1 }

abbrev made_one : Sections
made_one = record fresh { registry = one_pair; ids = update fresh.ids 0 1 }

abbrev in_between : Sections
in_between = begin_cancel made_one 0

abbrev made_two : Sections
unfolding begin_cancel
made_two = record in_between {
  registry = (pair in_between.registry).1;
  ids = update in_between.ids 1 2;
}

first_pair : pair Registry_new ≡ (ok given, one_pair)
unfolding pair lookup insert set_state successor contains_key
first_pair = refl

second-pair : pair in_between.registry ≡ (ok second, (pair in_between.registry).1)
unfolding pair lookup insert set_state successor contains_key begin_cancel
second-pair = refl

first_waits : one_pair.states 0 ≡ pending
unfolding pair lookup insert set_state successor contains_key
first_waits = refl

overlapping : Sections.Reaches fresh (end_cancel made_two 0)
unfolding begin_cancel update pair lookup insert set_state successor contains_key
overlapping =
    Sections.after
      (Sections.after
        (Sections.after (Sections.after Sections.start (Sections.paired given one_pair first_pair))
          (Sections.cancel_begun 0 (omega arith) first_waits))
        (Sections.paired second (pair in_between.registry).1 second-pair))
      (Sections.cancel_ended 0 refl)

Reaches-Coherent_example : Coherent (end_cancel made_two 0)
Reaches-Coherent_example = Reaches-Coherent (end_cancel made_two 0) overlapping
