-- ===== src/Coordinator/LazyExamples.antt =====
-- A task is sent before its lazy input is there, another one after it.
use diflow.Prelude.{
  ℕ, ◌≡◌, refl, true, some, [], ◌∷◌, String, string_eq, nat_eq, Dict, lookup, insert, erase,
  contains, ◌⊎◌, ok, raise, key_error,
}
use diflow.Scheduler.Task.{TensorInfo}
use diflow.Coordinator.Lazy.{
  arrived, Lazy, store_tensors, send_lazy_inputs, notify_lazy_input_available,
}
use diflow.Coordinator.Lazy.Awake.{told}
use diflow.Coordinator.Lazy.Told.{
  Steps, start, more, report, notify, no_lazy, send_lazy_inputs-told,
}

abbrev latent : TensorInfo
latent = record { dtype = "float16"; size = 1 ∷ 4 ∷ [] }

abbrev inputs : Dict String String
inputs = ("control", "latent") ∷ []

abbrev no_locations : Dict String (Dict ℕ TensorInfo)
no_locations = []

-- No tensor of the request is stored yet: the task is not sent.
refused : send_lazy_inputs "step" 1 inputs [] no_lazy ≡ raise key_error
unfolding send_lazy_inputs
refused = refl

-- Worker 0 reports the tensor of another node, whose notification runs.
abbrev begun : Lazy
begun = record no_lazy {
  tensor_map = some (("prompt", (0, latent) ∷ []) ∷ []);
  notifying = ("prompt", 0) ∷ [];
}

abbrev ready : Lazy
ready = record begun { notifying = [] }

first_reported : store_tensors 0 (("prompt", latent) ∷ []) no_lazy ≡ begun
unfolding store_tensors lookup insert
first_reported = refl

nobody_waits : notify_lazy_input_available "prompt" 0 ready ≡ ready
unfolding notify_lazy_input_available lookup
nobody_waits = refl

-- The node waits on worker 1.
abbrev waiting : Lazy
waiting = record ready { lazy_input_dependents = ("latent", ("step", 1) ∷ []) ∷ [] }

first_sent : send_lazy_inputs "step" 1 inputs [] ready ≡ ok (([], inputs), waiting)
unfolding send_lazy_inputs lookup insert
first_sent = refl

-- Worker 0 reports the tensor.
abbrev reported : Lazy
reported = record waiting {
  tensor_map = some (("prompt", (0, latent) ∷ []) ∷ ("latent", (0, latent) ∷ []) ∷ []);
  notifying = ("latent", 0) ∷ [];
}

tensors_reported : store_tensors 0 (("latent", latent) ∷ []) waiting ≡ reported
unfolding store_tensors lookup insert
tensors_reported = refl

second_sent :
    send_lazy_inputs "decode" 2 inputs [] reported
    ≡ ok ((("control", (0, latent) ∷ []) ∷ [], []), reported)
unfolding send_lazy_inputs lookup insert
second_sent = refl

abbrev finished : Lazy
finished =
    notify_lazy_input_available "latent" 0
      (record (store_tensors 0 (("latent", latent) ∷ []) waiting) { notifying = [] })

until_ready : Steps no_lazy (notify_lazy_input_available "prompt" 0 ready)
unfolding store_tensors lookup insert
until_ready = more (more start (report 0 (("prompt", latent) ∷ []))) (notify "prompt" 0 [] refl)

send_lazy_inputs-told_example :
    ((lookup "control" no_locations ≡ lookup "latent" (arrived ready.tensor_map))
      × (contains "latent" (arrived ready.tensor_map) ≡ true))
    ⊎ (told 1 "latent" finished.sent ≡ true)
unfolding store_tensors notify_lazy_input_available lookup insert erase
send_lazy_inputs-told_example =
    send_lazy_inputs-told ready waiting finished "step" 1 inputs inputs [] no_locations "control"
      "latent" until_ready first_sent
      (more (more start (report 0 (("latent", latent) ∷ []))) (notify "latent" 0 [] refl))
      (refl, tt) refl refl refl
