-- ===== src/Liveness/Flow/Tests.antt =====
-- Runs of the dataflow on functions with two registers.
use verona_bc.Prelude.{
  ℕ, zero, suc, ◌-◌, ◌≤◌, ◌<◌, ◌≡◌, ◌≢◌, ◌↔◌, refl, sym, true, ◌||◌, Option, none, some, List, [],
  ◌∷◌, arith, length,
}
use verona_bc.Bitset.{Bitset, make, test, and_with, or_with, complement, is_nonempty, differs}
use verona_bc.Bitset.Extensional.{capacity-make_one}
use verona_bc.Liveness.Flow.{
  FlowLabel, with_state, Flowed, flowed, out_of_fuel, flow, run, all_labels, visit, merge_succs,
  merge_firsts, find_redef, find_dead, check_succs, settle,
}
use verona_bc.Liveness.Flow.Kept.{at, needs, holds, is_in, IsFit}
use verona_bc.Liveness.Flow.Merge.{Fits}
use verona_bc.Liveness.Flow.Live.{LiveAt, read_here, IsGraph}
use verona_bc.Liveness.Flow.Loop.{KillsLive, enough}
use verona_bc.Liveness.Flow.Exact.{IsReady, flow_returns, flow-live}

abbrev pub made : ℕ → ℕ → ℕ → ℕ → Option ℕ → List ℕ → List ℕ → FlowLabel
made i o d f first pred succ = record {
  state = record {
    first_def = first ∷ none ∷ [];
    first_use = first ∷ none ∷ [];
    last_use = none ∷ none ∷ [];
    live_in = record { bits = i ∷ [] };
    defd = record { bits = f ∷ [] };
    dead = record { bits = d ∷ [] };
    live_out = record { bits = o ∷ [] };
    used = record { bits = i ∷ [] };
  };
  pred = pred;
  succ = succ;
}

-- Label 0 defines register 0, label 1 is a loop that does not name it, label 2 reads it. With `d` = 1, label 1
-- kills it instead; with `e` = 1, label 2 does.
abbrev pub chain : ℕ → ℕ → List FlowLabel
chain d e =
    made 0 1 0 1 (some 7) [] (1 ∷ [])
    ∷ made d 0 d 0 none (0 ∷ 1 ∷ []) (1 ∷ 2 ∷ [])
    ∷ made 1 (1 - e) e 0 none (1 ∷ []) []
    ∷ []

abbrev pub no_vars : Bitset
no_vars = record { bits = 0 ∷ [] }

made-IsFit :
    (i o d f : ℕ) (first : Option ℕ) (pred succ : List ℕ)
    → i < 2
    → o < 2
    → IsFit 2 (made i o d f first pred succ).state
made-IsFit i o d f first pred succ hi ho =
    let size = capacity-make_one 2 (omega arith) (omega arith) in
    record {
      first_def = refl;
      first_use = refl;
      live_in = sym size;
      live_out = sym size;
      dead = sym size;
      defd = sym size;
      in_words = omega arith;
      out_words = omega arith;
    }

chain-Fits : (d e : ℕ) → d < 2 → Fits 2 (chain d e)
chain-Fits d e h zero l = made-IsFit 0 1 0 1 (some 7) [] (1 ∷ []) (omega arith) (omega arith)
chain-Fits d e h (suc zero) l =
    made-IsFit d 0 d 0 none (0 ∷ 1 ∷ []) (1 ∷ 2 ∷ []) (omega arith) (omega arith)
chain-Fits d e h (suc (suc zero)) l =
    made-IsFit 1 (1 - e) e 0 none (1 ∷ []) [] (omega arith) (omega arith)
chain-Fits d e h (suc (suc (suc i))) l = absurd (omega arith)

chain-IsGraph : (d e : ℕ) → IsGraph 2 (chain d e)
chain-IsGraph d e = record {
  succ_in = succ_in;
  back = back;
  pred_in = pred_in;
  pred_size = pred_size;
}
  where
    succ_in : (i s : ℕ) → i < 3 → is_in s (at (chain d e) i).succ ≡ true → s < 3
    succ_in zero s h edge = ground arith
    succ_in (suc zero) s h edge = ground arith
    succ_in (suc (suc zero)) s h edge = ground arith
    succ_in (suc (suc (suc i))) s h edge = absurd (omega arith)

    back :
        (i s : ℕ)
        → i < 3
        → is_in s (at (chain d e) i).succ ≡ true
        → is_in i (at (chain d e) s).pred ≡ true
    back zero zero h edge = cc
    back zero (suc zero) h edge = refl
    back zero (suc (suc s)) h edge = absurd (ground arith)
    back (suc zero) zero h edge = cc
    back (suc zero) (suc zero) h edge = refl
    back (suc zero) (suc (suc zero)) h edge = refl
    back (suc zero) (suc (suc (suc s))) h edge = absurd (ground arith)
    back (suc (suc zero)) s h edge = absurd (ground arith)
    back (suc (suc (suc i))) s h edge = absurd (omega arith)

    pred_in : (i s : ℕ) → i < 3 → is_in s (at (chain d e) i).pred ≡ true → s < 3
    pred_in zero s h edge = absurd (ground arith)
    pred_in (suc zero) s h edge = ground arith
    pred_in (suc (suc zero)) s h edge = ground arith
    pred_in (suc (suc (suc i))) s h edge = absurd (omega arith)

    pred_size : (i : ℕ) → i < 3 → length (at (chain d e) i).pred ≤ 2
    pred_size zero h = omega arith
    pred_size (suc zero) h = omega arith
    pred_size (suc (suc zero)) h = omega arith
    pred_size (suc (suc (suc i))) h = absurd (omega arith)

pub chain-IsReady : (d e : ℕ) → d < 2 → IsReady 2 2 no_vars (chain d e)
chain-IsReady d e h = record {
  sized = sym (capacity-make_one 2 (omega arith) (omega arith));
  words = omega arith;
  fits = chain-Fits d e h;
  graph = chain-IsGraph d e;
}

pub enough-chain : (d e : ℕ) → enough 2 2 (chain d e) ≤ 1000
enough-chain d e = omega (arith, capacity-make_one 2 (omega arith) (omega arith))

abbrev pub grown_loop : FlowLabel
grown_loop =
    let l = made 0 0 0 0 none (0 ∷ 1 ∷ []) (1 ∷ 2 ∷ []) in
    with_state l
      (record (l.state) { live_in = record { bits = 1 ∷ [] }; live_out = record { bits = 1 ∷ [] } })

abbrev pub chain_end : ℕ → List FlowLabel
chain_end e =
    made 0 1 0 1 (some 7) [] (1 ∷ []) ∷ grown_loop ∷ made 1 (1 - e) e 0 none (1 ∷ []) [] ∷ []

-- The register comes into the loop label, through its own edge too, and stays out of the label that defines it.
chain_runs : flow 1000 2 no_vars (chain 0 0) ≡ some (flowed (chain_end 0))
unfolding flow run all_labels visit merge_succs merge_firsts find_redef find_dead check_succs settle
    make test and_with or_with complement is_nonempty differs
chain_runs = refl

pub chain_kills : flow 1000 2 no_vars (chain 0 1) ≡ some (flowed (chain_end 1))
unfolding flow run all_labels visit merge_succs merge_firsts find_redef find_dead check_succs settle
    make test and_with or_with complement is_nonempty differs
chain_kills = refl

flow_returns_example : (o : Flowed) × (flow 1000 2 no_vars (chain 1 0) ≡ some o) × (o ≢ out_of_fuel)
flow_returns_example =
    flow_returns 2 2 1000 no_vars (chain 1 0) (chain-IsReady 1 0 (omega arith)) (enough-chain 1 0)

flow-live_example :
    ((needs (chain_end 0) 1 0 ≡ true) ↔ LiveAt (chain 0 0) 0 1)
    × (holds (chain 0 0) 1 0 ≡ true → holds (chain_end 0) 1 0 ≡ true)
    × (holds (chain_end 0) 1 0 ≡ true → (holds (chain 0 0) 1 0 || needs (chain_end 0) 1 0) ≡ true)
flow-live_example =
    flow-live 2 2 1000 no_vars (chain 0 0) (chain-IsReady 0 0 (omega arith)) (enough-chain 0 0)
      (chain_end 0) 1 0 chain_runs (omega arith) (omega arith)

-- The loop label kills the register that the label behind it reads.
chain-KillsLive : KillsLive 2 (chain 1 0)
chain-KillsLive = (1, 2, 0, omega arith, omega arith, refl, refl, read_here refl)

-- A definition two labels behind the entry.
abbrev late : List FlowLabel
late =
    made 0 0 0 0 none [] (1 ∷ [])
    ∷ made 0 0 0 0 none (0 ∷ []) (2 ∷ [])
    ∷ made 0 1 0 1 (some 7) (1 ∷ []) []
    ∷ []

-- The labels are visited in their order, and a definition queues no label again: label 0 has been visited when
-- the definition reaches label 1, and never learns of it.
late_missed :
    flow 1000 2 no_vars late
    ≡ some (
        flowed (
          made 0 0 0 0 none [] (1 ∷ [])
          ∷ made 0 0 0 1 (some 7) (0 ∷ []) (2 ∷ [])
          ∷ made 0 1 0 1 (some 7) (1 ∷ []) []
          ∷ []))
unfolding flow run all_labels visit merge_succs merge_firsts find_redef find_dead check_succs settle
    make test and_with or_with complement is_nonempty differs
late_missed = refl
