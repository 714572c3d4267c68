-- ===== src/Lib.antt =====
-- Verona BC: the byte format VBC with its two sides, the types and the regions of the virtual machine VBCI,
-- and the register sets, label states and literals of the compiler VIRC.
--
-- VIRC (directory virc/) compiles the textual IR to VBC bytes, and VBCI (directory vbci/) loads and runs
-- them. The two share no code for the format: virc/vbc/emitter.cc writes by overloaded `<<` operators,
-- vbci/program.h and vbci/program.cc read back by member functions of `Program` that take the program
-- counter `pc` by reference. Inside VIRC, the liveness analysis keeps its sets of registers as bitsets.
--
-- Prelude: helpers. Prelude.Tests has the Boolean tests, Prelude.Lists the vector operations,
--   Prelude.Fallible the bind of fallible code, Prelude.Bits the bits of a machine word, Prelude.Masks
--   its masks, Prelude.Sums the sum of a function below a bound, Prelude.Integers the integers.
-- Bitset: virc/analysis/bitset.h and virc/analysis/bitset.cc. `Bitset` is the struct with its words;
--   each operation has the name of its method: resize_set is `resize`, set_bit `set`, reset_bit
--   `reset`, complement `operator~`, and_with and or_with the operators `&` and `|` and their
--   assigning forms, equals and differs `==` and `!=`, is_empty and is_nonempty `empty` and the
--   conversion to bool. A checked access that throws is `none`. The child modules hold the laws.
-- Label: `LabelState` of virc/model/compilation.h and virc/model/compilation.cc, the registers' state
--   in one label: def, use_register (`use`), kill, automove and resize_label (`resize`). The IR tree of
--   the external library trieste is, for each node, what its parent makes of it; automove turns a
--   copy there into a move.
-- Liveness: virc/passes/liveness.cc over the label states of Label. Liveness.Body is its traversal: a
--   statement (Liveness.Body.Statements) gives its accesses, of the registers of the children that its
--   kind has, before, in and behind its arguments, and each access is `def`, `use` or `kill`
--   of the label; what they put into the tree on an error is a flag, and the traversal goes on.
--   Liveness.Flow is the backward data-flow, `flow`: run is the `while` loop, visit a round, merge_succs
--   the loop over the successors, check_dead and settle what follows it. A label has its edges, which
--   assign_ids builds; both errors end the pass for the function. Liveness.Paths has both together.
-- Names: the string table of virc/model/name_table.cc, and the ids by name of virc/model/compilation.cc: get_id,
--   get_item and add are get_class_id, get_typealias and add_class, whose code the other kinds of names
--   repeat on their own maps. The map and the vector of one kind are a Registry.
-- Literals: `append_utf8` of virc/support/literals.cc; Literals.Escapes has parse_number (its loop is
--   digits_from) and unescape, whose fuel is the number of bytes, since each round moves on by one.
-- Vbc.Reader: the result of a read. `parsed` has the value and the new `pc`; `refused` is a reader
--   that returns false after logging; `fault` is an access past the end of the bytes or of a table.
-- Vbc.Leb: `uleb` and `sleb` of both sides. Signed numbers are bit patterns of their width, and the
--   promotion of narrow operands to `int` is written out (put_uleb_int, zigzag_promoted).
-- Vbc.Sections: the string table and the function, method and field entries, of both sides.
-- Vbc.ComplexTypes: the complex types of both sides, parse_complex_type of vbci/program.cc and the part
--   of `VBCEmitter::emit` that writes them, with the map of reference types that the loader fills.
-- Vbci.Types: the types of a loaded program, `ComplexType` of vbci/classes.h and the predicates,
--   projections and `subtype` of vbci/program.cc, under their own names. has_tag and untag are the
--   common bodies of is_ref, is_cown, is_union and of uncown, unref. Vbci.Types.Layout has
--   layout_type_id and layout_union_type; a layout is the value type and the libffi descriptor, and
--   the width of `size_t` is an argument.
-- Vbci.Regions: `Region` of vbci/region.h. A store has the region at each number, and the list of
--   those handed to `collect`; the member functions take the store and the number of the region, and
--   `none` is a failed assertion. A child is in use while its stack count is positive; what counts for
--   the count of a region is what is outside of the regions, given as a function, and its children
--   in use.
-- Vbci.Location: `Location` of vbci/location.h, a word with a tag in its low three bits; a failed assertion
--   is `none`.
-- Vbci.WriteBarrier: vbci/writebarrier.h over the regions. `WriteOps` is write_ops, and prepare_store,
--   prepare_out and prepare_in make the plan, with a part each for a value on the stack, in a frame-local
--   region and in another one; Vbci.WriteBarrier.Apply has apply_in, apply_out, exchange, init and
--   drop. A region pointer is the number of the region. drag_allocation is an argument, and what is done
--   to the field, the register and the object is a list, since the objects are not modelled; the
--   location of the outgoing value is read once.
-- Vbci.Stack: `Stack` of vbci/stack.h and vbci/stack.cc, its save, restore and alloc, which is split where it
--   moves to the next chunk (next_chunk), adds a chunk (grow) and takes the place (take_top). Chunks
--   are indices, and the sentinels that are written are a list.
-- Vbci.Header: `find` of vbci/header.h on the links between frozen objects; its fuel must be above the depth
--   of the header, where SCC pointers go to a smaller depth.
--
-- Bounds and fuel. flow runs on fuel, one unit for each round, and needs no more than `enough`: every
-- label once, and for each register that a label's set can gain the predecessors of the label.
-- put_uleb_loop runs on fuel; a round divides the value by 128, and the value itself is enough fuel.
-- uleb_loop has the ten rounds of its `for` loop, shifts 0 to 63; the theorems on it are about numbers
-- below 2 ^ 64. A word of a bitset is below 2 ^ 64, and the theorems on words take that as a
-- hypothesis, which the type uint64_t gives in the source. subtype goes down the children of either
-- type, so fuel above the sum of two ranks is enough, and layout_type_id needs fuel above the rank of
-- its type; a rank is a function on type ids that is smaller for children. stack_inc, stack_dec and
-- is_ancestor_of climb to the parent, and need fuel above the rank of the region, where a parent has
-- the smaller rank. Stack counts are uint32_t and wrap (rc_mod).
--
-- Not modelled: in the liveness pass, the checks of the entry label and the insertion of drops; among the names,
-- reserved functions and methods, symbols and type_id; the other passes of VIRC on its IR tree and those of the vc front end (directory vc/), both
-- written in the DSL of the external library trieste; the run time of VBCI beyond the types and the
-- ownership of regions (contents of regions, reference counts of headers, cowns, frames,
-- interpreter, checks of the loader on code); the instruction stream and the
-- debug stream of the emitter, with its zstd compression; embedding headers.
pub mod Prelude
pub mod Bitset
pub mod Vbc
pub mod Label
pub mod Literals
pub mod Vbci
pub mod Liveness
pub mod Names
