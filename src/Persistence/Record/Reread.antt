-- ===== src/Persistence/Record/Reread.antt =====
-- What a retry of a recorded run starts from.
use light_soar.Prelude.{
  ℕ, zero, suc, ◌<◌, ◌-◌, ◌%◌, pos, false, Bool-cases, Option, none, some, List, [], ◌∷◌, ◌++◌, map,
  Text, ascii, text_eq, text_eq→eq, ◌≡◌, ◌≢◌, refl, ap, ◌∙◌, inl, inr, arith,
}
use light_soar.Execution.Status.{Err}
use light_soar.Execution.Data.{NodeData, Node, new_node, node_with_data}
use light_soar.Execution.Graph.Defs.{ExecutionGraph, MapOrder, ok}
use light_soar.Execution.Graph.Links.{IsMapOrder}
use light_soar.Execution.Graph.Construct.{create_retry_execution_graph, setup_retry}
use light_soar.Execution.Graph.Build.{
  IsUnnumbered, data_of, create_retry_execution_graph-IsComplete,
}
use light_soar.Execution.Graph.Ranks.{IsComplete}
use light_soar.Persistence.Record.Defs.{
  TimeFormat, format_time, parse_time, or_zero, err_text, err_from_text, from_node, from_nodes,
  to_node,
}

-- A time without its fraction of a second.
unfoldable pub to_second : ℕ → ℕ
to_second t = t - t % 1_000_000_000

-- RFC 3339 keeps the seconds, and is no dash.
pub record KeepsSeconds (times : TimeFormat) : Type 0 where
  pub reads : (t : ℕ) → times.parse_rfc3339 (times.rfc3339 t) ≡ some (to_second t)
  pub no_dash : (t : ℕ) → times.rfc3339 t ≢ ascii "-"

abbrev pub reread_error : (Err → Text) → Option Err → Option Err
reread_error error_text none = none
reread_error error_text (some e) =
    some (Err.other (ascii "node processing error: " ++ error_text e))

-- What a record keeps of a node: all but the exit code and the fractions of the seconds, and an
-- error by its text.
unfoldable pub reread : (Err → Text) → NodeData → NodeData
unfolding to_second
reread error_text d = record d {
  state = record d.state {
    started_at = to_second d.state.started_at;
    finished_at = to_second d.state.finished_at;
    retried_at = to_second d.state.retried_at;
    error = reread_error error_text d.state.error;
    exit_code = pos 0;
  };
}

module _ (times : TimeFormat) (keeps : KeepsSeconds times) (error_text : Err → Text)
    (told : (e : Err) → error_text e ≢ []) where
  parsed :
      (v : Text) (t : ℕ)
      → text_eq v (ascii "-") ≡ false
      → times.parse_rfc3339 v ≡ some t
      → or_zero (parse_time times v) ≡ t
  unfolding parse_time
  parsed v t h k = rw h (rw k refl)

  not_zero : (n : ℕ) → format_time times (suc n) ≡ times.rfc3339 (suc n)
  unfolding format_time
  not_zero n = ground arith

  parse_time-format_time : (t : ℕ) → or_zero (parse_time times (format_time times t)) ≡ to_second t
  unfolding parse_time format_time to_second
  parse_time-format_time zero = refl
  parse_time-format_time (suc n) = elim (Bool-cases (text_eq (times.rfc3339 (suc n)) (ascii "-"))) [
    | inl dash ↦ absurd (keeps.no_dash (suc n) (text_eq→eq _ (ascii "-") dash))
    | inr other ↦
        ap (λ v. or_zero (parse_time times v)) (not_zero n)
        ∙ parsed (times.rfc3339 (suc n)) (to_second (suc n)) other (keeps.reads (suc n))
  ]

  err_from_text-err_text :
      (e : Option Err) → err_from_text (err_text error_text e) ≡ reread_error error_text e
  unfolding err_from_text err_text
  err_from_text-err_text none = refl
  err_from_text-err_text (some e) = elim (Bool-cases (text_eq (error_text e) [])) [
    | inl empty ↦ absurd (told e (text_eq→eq (error_text e) [] empty))
    | inr full ↦ rw full
  ]

  to_node-from_node :
      (d : NodeData)
      → (to_node times (from_node times error_text d)).node_data ≡ reread error_text d
  unfolding to_node from_node new_node node_with_data reread
  to_node-from_node d = λ i. record d {
    state = record d.state {
      started_at = parse_time-format_time d.state.started_at i;
      finished_at = parse_time-format_time d.state.finished_at i;
      retried_at = parse_time-format_time d.state.retried_at i;
      error = err_from_text-err_text d.state.error i;
      exit_code = pos 0;
    };
  }

  abbrev reread_nodes : List NodeData → List Node
  reread_nodes ds = map (to_node times) (from_nodes times error_text ds)

  reread_nodes-IsUnnumbered : (ds : List NodeData) → IsUnnumbered (reread_nodes ds)
  unfolding from_nodes to_node new_node node_with_data
  reread_nodes-IsUnnumbered [] = tt
  reread_nodes-IsUnnumbered (d ∷ ds) = (refl, reread_nodes-IsUnnumbered ds)

  data-reread_nodes :
      (ds : List NodeData)
      → map (λ (n : Node). n.node_data) (reread_nodes ds) ≡ map (reread error_text) ds
  unfolding from_nodes
  data-reread_nodes [] = refl
  data-reread_nodes (d ∷ ds) = λ i. to_node-from_node d i ∷ data-reread_nodes ds i

  -- Nodes that were recorded by `FromNodes` and are read again by `ToNode`: a graph that
  -- `CreateRetryExecutionGraph` makes of them is what `setupRetry` makes of a complete graph over the
  -- recorded data, in order, of which only the exit codes and the fractions of the seconds are lost,
  -- and the errors are kept by their texts. The format of times keeps the seconds, and no error has an
  -- empty text.
  pub retry_of_records :
      (order : MapOrder) (fair : IsMapOrder order) (ds : List NodeData) (next : ℕ)
      (g : ExecutionGraph)
      → 0 < next
      → (create_retry_execution_graph order
          (map (to_node times) (from_nodes times error_text ds))
          next).0
        ≡ ok g
      → (g' : ExecutionGraph) × IsComplete g'
        × (data_of g' ≡ map (reread error_text) ds)
        × (g ≡ setup_retry g')
  retry_of_records order fair ds next g h e =
      let (g', complete, same, retried) =
        create_retry_execution_graph-IsComplete order fair (reread_nodes ds) next g
          (reread_nodes-IsUnnumbered ds) h e in
      (g', complete, same ∙ data-reread_nodes ds, retried)
