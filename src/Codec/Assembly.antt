-- ===== src/Codec/Assembly.antt =====
-- Header fields that reach the decoder in pieces.
use doormat.Base.{
  ◌≡◌, refl, sym, ap, ◌∙◌, Bool, true, false, Option, none, some, List, [], ◌∷◌, ◌++◌, map,
  append_assoc, append-nil, Bytes, Option-cases, inl, inr,
}
use doormat.Codec.Chunks.{concat}
use doormat.Headers.{header, ◌>>=◌}
use doormat.Codec.Decoder.{
  Decoder, Message, Url, Event, header_field, header_value, Callback, on_base,
  process_current_header, on_header_field, on_header_value, handle, run,
}

-- A field as the parser hands it on: the pieces of its name, then those of its value. There is at
-- least one of each, which may be empty.
pub record Pieces : Type 0 where
  pub name_first : Bytes
  pub name_rest : List Bytes
  pub value_first : Bytes
  pub value_rest : List Bytes

abbrev pub name_of : Pieces → Bytes
name_of f = f.name_first ++ concat f.name_rest

abbrev pub value_of : Pieces → Bytes
value_of f = f.value_first ++ concat f.value_rest

abbrev pub field_events : Pieces → List Event
field_events f =
    map header_field (f.name_first ∷ f.name_rest) ++ map header_value (f.value_first ∷ f.value_rest)

abbrev pub events : List Pieces → List Event
events [] = []
events (f ∷ fs) = field_events f ++ events fs

-- One field, as a whole.
abbrev put : Message → Bytes → Bytes → Option Message
put m k v = on_base (λ b. header b k v) m

-- The message with all the fields.
abbrev pub with_fields : Message → List Pieces → Option Message
with_fields m [] = some m
with_fields m (f ∷ fs) = put m (name_of f) (value_of f) >>= λ m'. with_fields m' fs

-- A decoder between the start of a message and the end of its header.
abbrev pub inside : Decoder → Message → Bool → Bytes → Bytes → Decoder
inside d m got k v = record d {
  message = some m;
  headers_completed = false;
  got_header = got;
  key = k;
  value = v;
}

>>=_assoc {ℓ} :
    {A B C : Type ℓ} (o : Option A) (f : A → Option B) (g : B → Option C)
    → ((o >>= f) >>= g) ≡ (o >>= λ a. f a >>= g)
>>=_assoc none f g = refl
>>=_assoc (some a) f g = refl

bind_cong {ℓ} :
    {A B : Type ℓ} (o : Option A) {f g : A → Option B}
    → ((a : A) → f a ≡ g a)
    → (o >>= f) ≡ (o >>= g)
bind_cong none h = refl
bind_cong (some a) h = h a

-- A step without calls adds none.
silent : (o : Option (Decoder × List Callback)) → (o >>= λ q. some (q.0, [] ++ q.1)) ≡ o
silent none = refl
silent (some (d, calls)) = refl

module _ (p : Bytes → Bool → Url → Url × Bool) (d : Decoder) where
  run_names :
      (m : Message) (k v : Bytes) (ks : List Bytes) (es : List Event)
      → run p (inside d m false k v) (map header_field ks ++ es)
        ≡ run p (inside d m false (k ++ concat ks) v) es
  unfolding run handle on_header_field process_current_header
  run_names m k v [] es = ap (λ x. run p (inside d m false x v) es) (sym (append-nil k))
  run_names m k v (s ∷ ks) es =
      silent _
      ∙ run_names m (k ++ s) v ks es
      ∙ ap (λ x. run p (inside d m false x v) es) (append_assoc k s (concat ks))

  run_values :
      (m : Message) (k v : Bytes) (vs : List Bytes) (es : List Event)
      → run p (inside d m true k v) (map header_value vs ++ es)
        ≡ run p (inside d m true k (v ++ concat vs)) es
  unfolding run handle on_header_value
  run_values m k v [] es = ap (λ x. run p (inside d m true k x) es) (sym (append-nil v))
  run_values m k v (s ∷ vs) es =
      silent _
      ∙ run_values m k (v ++ s) vs es
      ∙ ap (λ x. run p (inside d m true k x) es) (append_assoc v s (concat vs))

  -- The pieces behind the first of the name.
  run_rest :
      (m : Message) (f : Pieces) (es : List Event)
      → run p
          (inside d m false f.name_first [])
          (map header_field f.name_rest ++ (map header_value (f.value_first ∷ f.value_rest) ++ es))
        ≡ run p (inside d m true (name_of f) (value_of f)) es
  unfolding run handle on_header_value
  run_rest m f es =
      run_names m f.name_first [] f.name_rest _
      ∙ silent _
      ∙ run_values m (name_of f) f.value_first f.value_rest es

  -- A field behind none, and behind one that is still to be added.
  run_fresh :
      (m : Message) (f : Pieces) (es : List Event)
      → run p (inside d m false [] []) (field_events f ++ es)
        ≡ run p (inside d m true (name_of f) (value_of f)) es
  unfolding run handle on_header_field process_current_header
  run_fresh m f es =
      silent _
      ∙ ap (run p (inside d m false f.name_first [])) (
          append_assoc (map header_field f.name_rest)
            (map header_value (f.value_first ∷ f.value_rest)) es)
      ∙ run_rest m f es

  run_pending :
      (m : Message) (k v : Bytes) (f : Pieces) (es : List Event)
      → run p (inside d m true k v) (field_events f ++ es)
        ≡ (put m k v >>= λ m'. run p (inside d m' true (name_of f) (value_of f)) es)
  unfolding run handle on_header_field process_current_header
  run_pending m k v f es = elim (Option-cases (put m k v)) [
    | inl e ↦ rw e refl
    | inr (m', e) ↦ rw e (fresh_step m')
  ]
    where
      fresh_step :
          (m' : Message)
          → (run p (inside d m' false f.name_first []) (
                (map header_field f.name_rest ++ map header_value (f.value_first ∷ f.value_rest))
                ++ es)
              >>= λ q. some (q.0, [] ++ q.1))
            ≡ run p (inside d m' true (name_of f) (value_of f)) es
      fresh_step m' =
          silent _
          ∙ ap (run p (inside d m' false f.name_first [])) (
              append_assoc (map header_field f.name_rest)
                (map header_value (f.value_first ∷ f.value_rest)) es)
          ∙ run_rest m' f es

  -- What the callback of the end of the header does first.
  abbrev pub then_process : Option (Decoder × List Callback) → Option Decoder
  then_process o = o >>= λ q. process_current_header q.0

  process-run_pending :
      (m : Message) (k v : Bytes) (fs : List Pieces)
      → then_process (run p (inside d m true k v) (events fs))
        ≡ (put m k v >>= λ m'. with_fields m' fs >>= λ m''. some (inside d m'' false [] []))
  unfolding process_current_header run
  process-run_pending m k v [] = refl
  process-run_pending m k v (f ∷ fs) =
      ap then_process (run_pending m k v f (events fs))
      ∙ >>=_assoc (put m k v) _ _
      ∙ bind_cong (put m k v) (λ m'.
        process-run_pending m' (name_of f) (value_of f) fs
        ∙ sym (>>=_assoc (put m' (name_of f) (value_of f)) _ _))

  -- The fields of a header reach the message whole and in order, however the parser splits their names
  -- and values, and the decoder fails exactly when one of the fields is one that the message fails on.
  pub process-run :
      (m : Message) (fs : List Pieces)
      → then_process (run p (inside d m false [] []) (events fs))
        ≡ (with_fields m fs >>= λ m'. some (inside d m' false [] []))
  unfolding process_current_header run
  process-run m [] = refl
  process-run m (f ∷ fs) =
      ap then_process (run_fresh m f (events fs))
      ∙ process-run_pending m (name_of f) (value_of f) fs
      ∙ sym (>>=_assoc (put m (name_of f) (value_of f)) _ _)
