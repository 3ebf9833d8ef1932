-- ===== src/Coordinator/TensorExamples.antt =====
-- Latents that two nodes read, and the worker that is told to free them.
use mathlib.Core.List.{Permᴰ}
use diflow.Prelude.{
  ℕ, ◌≡◌, refl, true, false, ◌&&◌, ◌||◌, none, some, List, [], ◌∷◌, ◌++◌, String, string_eq, nat_eq,
  ltb, nat_beq, Dict, lookup, insert, contains, ok, raise, key_error, member, ◌==◌, arith,
}
use diflow.Json.{pos}
use diflow.Workflow.{NodeIo, input, node, Operator, WorkflowNode}
use diflow.Scheduler.Task.{TensorInfo}
use diflow.Coordinator.Tensors.{
  Tensors, start_counts, drop_inputs, freed, update_free_tensor_dict, take_free,
}
use diflow.Coordinator.Tensors.Counted.{uses, uses_in}
use diflow.Coordinator.Tensors.Released.{holds, counts_after, update_free_tensor_dict-frees}

abbrev io : String → NodeIo
io name = record {
  name = name;
  data_type = "tensor";
  source_type = some node;
  source_node = some "text";
  size = none;
  lazy = false;
}

abbrev op : Operator
op = record { id = "op"; patches = []; is_scheduler = false; op_outputs = []; execution_modes = [] }

abbrev reads : String → Dict String NodeIo → WorkflowNode
reads name inputs = record { name = name; op = op; mode = "default"; inputs = inputs; outputs = [] }

abbrev prompt : NodeIo
prompt = record (io "prompt") { source_type = some input }

abbrev text : WorkflowNode
text = reads "text" (("prompt", prompt) ∷ [])

abbrev denoise : WorkflowNode
denoise = reads "denoise" (("embedding", io "embedding") ∷ ("again", io "embedding") ∷ [])

abbrev decode : WorkflowNode
decode = reads "decode" (("embedding", io "embedding") ∷ [])

abbrev nodes : List WorkflowNode
nodes = text ∷ denoise ∷ decode ∷ []

abbrev on_worker_1 : Dict String (Dict ℕ TensorInfo)
on_worker_1 = ("embedding", (1, record { dtype = "torch.float16"; size = 77 ∷ [] }) ∷ []) ∷ []

counted : start_counts nodes ≡ ("embedding", pos 3) ∷ []
unfolding start_counts lookup insert
counted = refl

-- The node `decode` was first, `denoise` is the last to read the embedding.
abbrev before : Tensors
before = record {
  tensor_reference_count = ("embedding", pos 2) ∷ [];
  tensor_map = on_worker_1;
  free_tensor_dict = [];
}

released :
    update_free_tensor_dict "r1" denoise before
    ≡ ok (record before {
      tensor_reference_count = ("embedding", pos 0) ∷ [];
      free_tensor_dict = (1, ("r1", "embedding" ∷ []) ∷ []) ∷ [];
    })
unfolding update_free_tensor_dict lookup insert
released = refl

-- An output that no worker holds as a tensor.
not_a_tensor :
    update_free_tensor_dict "r1" denoise (record before { tensor_map = [] }) ≡ raise key_error
unfolding update_free_tensor_dict lookup insert
not_a_tensor = refl

told_once :
    (take_free 1 (record before { free_tensor_dict = (1, ("r1", "embedding" ∷ []) ∷ []) ∷ [] })).0
    ≡ some (("r1", "embedding" ∷ []) ∷ [])
unfolding take_free lookup
told_once = refl

other_order : Permᴰ nodes ((text ∷ decode ∷ []) ++ denoise ∷ [])
other_order = Permᴰ.cons refl (Permᴰ.swap refl refl)

embedding_known :
    (t : String) → ltb 0 (uses t denoise.inputs) ≡ true → contains t before.tensor_map ≡ true
unfolding uses lookup
embedding_known t h = ground arith

update_free_tensor_dict-frees_example :
    (s : Tensors) × (update_free_tensor_dict "r1" denoise before ≡ ok s)
    × (s.tensor_reference_count ≡ (drop_inputs denoise.inputs before.tensor_reference_count).0)
    × ((rank : ℕ) (q t : String)
        → member t (freed rank q s.free_tensor_dict) ≡ (
            member t (freed rank q [])
            || (("r1" == q)
                && (ltb 0 (uses t denoise.inputs) && nat_beq (uses_in t []) 0)
                && holds rank t before.tensor_map)))
unfolding counts_after start_counts lookup insert drop_inputs
update_free_tensor_dict-frees_example =
    update_free_tensor_dict-frees "r1" nodes (text ∷ decode ∷ []) [] denoise before other_order refl
      embedding_known
