-- ===== src/Printer/Tests.antt =====
-- src/libtest/msg_printer.cpp and include/ghs/ghs_printer_impl.hpp: what is printed for numbers of one
-- digit.
use Prim.Native.String.{String}
use distributed_leader_elect.Prelude.{ℕ, zero, suc, ◌≡◌, refl, [], ◌∷◌, ℤ, pos, negsuc}
use distributed_leader_elect.Edge.{unknown, is_valid_edge}
use distributed_leader_elect.Msg.{srch_data, nack_part_data, msg}
use distributed_leader_elect.Ghs.State.{GhsState}
use distributed_leader_elect.Ghs.Peers.{
  construct, add_if_valid, set_edge, append_edge, checked_index_of, index_from, get_edge, has_edge,
}
use distributed_leader_elect.Prelude.{eqb_ℤ}
use distributed_leader_elect.Printer.{show_msg, dump_edges}

digit : ℕ → String
digit zero = "0"
digit (suc zero) = "1"
digit (suc (suc zero)) = "2"
digit (suc (suc (suc n))) = "#"

signed : ℤ → String
unfolding digit
signed (pos n) = digit n
signed (negsuc n) = "-"

search_text :
    show_msg signed digit
      (msg (pos 1) (pos 0) (srch_data (record { your_leader = pos 2; your_level = pos 1 })))
    ≡ "(0-->1) SRCH {ldr:2 lvl:1}"
unfolding show_msg signed
search_text = refl

answer_text : show_msg signed digit (msg (pos 1) (pos 0) nack_part_data) ≡ "(0-->1) NACK_PART {}"
unfolding show_msg signed
answer_text = refl

-- A peer whose id is not below the number of cells is not printed.
abbrev far_peer : GhsState
far_peer = construct 2 (pos 0) (
    record { peer = pos 1; root = pos 0; status = unknown; metric_val = 2 }
    ∷ record { peer = pos 2; root = pos 0; status = unknown; metric_val = 1 }
    ∷ [])

edges_text : dump_edges signed digit far_peer ≡ "(  m:- mw:# 0-->1 UNK_ 2;)"
unfolding dump_edges signed construct add_if_valid set_edge append_edge is_valid_edge
    checked_index_of index_from eqb_ℤ get_edge has_edge
edges_text = refl
