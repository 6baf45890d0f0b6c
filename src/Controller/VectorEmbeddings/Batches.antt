-- ===== src/Controller/VectorEmbeddings/Batches.antt =====
-- The loop over the batches in internal/controller/vectorembeddingsgenerator_controller.go.
use unstructured_data_contro.FileStore.{FileStore}
use unstructured_data_contro.Api.VectorEmbeddingsGenerator.{
  VectorEmbeddingsGeneratorConfig, set_defaults,
}
use unstructured_data_contro.Unstructured.ConvertedFile.{ConvertedFile}
use unstructured_data_contro.Unstructured.EmbeddingsFile.{ChunksDocument, EmbeddingsFile}
use unstructured_data_contro.Controller.VectorEmbeddings.{
  Deps, ModelCredentials, take_batch, drop_batch, batches, generate, embed_batches, paired,
  embed_document, credentials_of, encoding_format,
}
use unstructured_data_contro.Prelude.{
  ℕ, zero, suc, ◌≤◌, ◌<◌, Text, Option, none, some, List, [], ◌∷◌, ◌++◌, append_assoc, append-nil,
  map, length, Result, ok, err, ◌≡◌, refl, arith, ap, sym, ◌∙◌, nat_eq,
}

abbrev pub concat : List (List Text) → List Text
concat [] = []
concat (b ∷ bs) = b ++ concat bs

-- Every slice has at least one text, and at most `size`.
abbrev pub Bounded : ℕ → List (List Text) → Type 0
Bounded size [] = Unit
Bounded size (b ∷ bs) = ((0 < length b) × (length b ≤ size)) × Bounded size bs

take_drop : (n : ℕ) (texts : List Text) → take_batch n texts ++ drop_batch n texts ≡ texts
take_drop zero texts = refl
take_drop (suc n) [] = refl
take_drop (suc n) (t ∷ texts) = ap (λ (l : List Text). t ∷ l) (take_drop n texts)

length-take_batch : (n : ℕ) (texts : List Text) → length (take_batch n texts) ≤ n
length-take_batch zero texts = omega arith
length-take_batch (suc n) [] = omega arith
length-take_batch (suc n) (t ∷ texts) = omega (arith, length-take_batch n texts)

length-drop_batch : (n : ℕ) (texts : List Text) → length (drop_batch n texts) ≤ length texts
length-drop_batch zero texts = omega arith
length-drop_batch (suc n) [] = omega arith
length-drop_batch (suc n) (t ∷ texts) = omega (arith, length-drop_batch n texts)

batches_from :
    (fuel n : ℕ) (texts : List Text)
    → length texts ≤ fuel
    → (slices : List (List Text)) × ((batches fuel (suc n) texts ≡ some slices)
        × ((concat slices ≡ texts) × Bounded (suc n) slices))
unfolding batches
batches_from zero n [] h = ([], (refl, (refl, tt)))
batches_from (suc fuel) n [] h = ([], (refl, (refl, tt)))
batches_from zero n (t ∷ texts) h = absurd (omega arith)
batches_from (suc fuel) n (t ∷ texts) h =
    let (slices, (e, (all, bounded))) =
      batches_from fuel n (drop_batch n texts) (omega (arith, length-drop_batch n texts)) in
    (
      (t ∷ take_batch n texts) ∷ slices,
      (
        ground (arith, e),
        (
          ap (λ (l : List Text). t ∷ l)
              (ap (λ (l : List Text). take_batch n texts ++ l) all ∙ take_drop n texts),
          ((omega arith, omega (arith, length-take_batch n texts)), bounded),
        ),
      ),
    )

-- With the defaults filled in the loop over the batches ends: its slices are not empty, have at
-- most BatchSize texts, and are the texts one after the other.
pub batches-set_defaults :
    (c : VectorEmbeddingsGeneratorConfig) (texts : List Text)
    → (slices : List (List Text)) × ((batches (length texts) (set_defaults c).batch_size texts
          ≡ some slices)
        × ((concat slices ≡ texts) × Bounded (set_defaults c).batch_size slices))
unfolding set_defaults
batches-set_defaults c texts = by_size c.batch_size refl
  where
    at_size :
        (n : ℕ)
        → (set_defaults c).batch_size ≡ suc n
        → (slices : List (List Text)) × ((batches (length texts) (set_defaults c).batch_size texts
              ≡ some slices)
            × ((concat slices ≡ texts) × Bounded (set_defaults c).batch_size slices))
    at_size n e = rw e (batches_from (length texts) n texts (omega arith))

    by_size :
        (n : ℕ)
        → c.batch_size ≡ n
        → (slices : List (List Text)) × ((batches (length texts) (set_defaults c).batch_size texts
              ≡ some slices)
            × ((concat slices ≡ texts) × Bounded (set_defaults c).batch_size slices))
    by_size zero e = at_size 999 (ground (arith, e))
    by_size (suc n) e = at_size n (ground (arith, e))

concat-batches :
    (fuel size : ℕ) (texts : List Text) (slices : List (List Text))
    → batches fuel size texts ≡ some slices
    → concat slices ≡ texts
unfolding batches
concat-batches zero size [] slices h = ground arith
concat-batches (suc fuel) size [] slices h = ground arith
concat-batches zero size (t ∷ texts) slices h = cc
concat-batches (suc fuel) size (t ∷ texts) slices h =
    by_rest (concat-batches fuel size (drop_batch size (t ∷ texts)))
      (batches fuel size (drop_batch size (t ∷ texts))) refl
  where
    by_rest :
        ((rest : List (List Text))
          → batches fuel size (drop_batch size (t ∷ texts)) ≡ some rest
          → concat rest ≡ drop_batch size (t ∷ texts))
        → (o : Option (List (List Text))) → batches fuel size (drop_batch size (t ∷ texts)) ≡ o
        → concat slices ≡ t ∷ texts
    by_rest ih none e = absurd (ground (arith, e))
    by_rest ih (some rest) e = ground (
      arith,
      e,
      ap (λ (l : List Text). take_batch size (t ∷ texts) ++ l) (ih rest e)
          ∙ take_drop size (t ∷ texts),
    )

module _ (deps : Deps) (fs : FileStore deps.env) (config : VectorEmbeddingsGeneratorConfig)
    (input_path output_path : Text) (embed : Text → deps.Vector)
    (answers : (creds : ModelCredentials) (format : Text) (batch : List Text)
        (vectors : List deps.Vector) (w : deps.env.World)
      → (generate deps fs config input_path output_path creds format batch w).0 ≡ ok vectors
      → vectors ≡ map embed batch) where
  map-append : (l m : List Text) → map embed (l ++ m) ≡ map embed l ++ map embed m
  map-append [] m = refl
  map-append (t ∷ l) m = ap (λ (r : List deps.Vector). embed t ∷ r) (map-append l m)

  embed_batches_lem :
      (creds : ModelCredentials) (format : Text) (slices : List (List Text))
      (vectors result : List deps.Vector) (w : deps.env.World)
      → (embed_batches deps fs config input_path output_path creds format slices vectors w).0
        ≡ ok result
      → result ≡ vectors ++ map embed (concat slices)
  unfolding embed_batches
  embed_batches_lem creds format [] vectors result w h = ground (arith, append-nil vectors)
  embed_batches_lem creds format (b ∷ bs) vectors result w h =
      by_batch (embed_batches_lem creds format bs)
        (generate deps fs config input_path output_path creds format b w).0 refl
    where
      by_batch :
          ((vectors result : List deps.Vector) (w : deps.env.World)
            → (embed_batches deps fs config input_path output_path creds format bs vectors w).0
              ≡ ok result
            → result ≡ vectors ++ map embed (concat bs))
          → (r : Result (List deps.Vector))
          → (generate deps fs config input_path output_path creds format b w).0 ≡ r
          → result ≡ vectors ++ map embed (b ++ concat bs)
      by_batch ih (err x) k = absurd (ground (arith, k))
      by_batch ih (ok got) k =
          ih (vectors ++ got) result
            (generate deps fs config input_path output_path creds format b w).1
            (ground (arith, k, h))
          ∙ append_assoc vectors got (map embed (concat bs))
          ∙ ap (λ (l : List deps.Vector). vectors ++ l)
              (ap (λ (l : List deps.Vector). l ++ map embed (concat bs))
                  (answers creds format b got w k)
                ∙ sym (map-append b (concat bs)))

  paired-map :
      (texts : List Text)
      → paired deps fs config input_path output_path texts (map embed texts)
        ≡ map (λ (t : Text). (t, embed t)) texts
  paired-map [] = refl
  paired-map (t ∷ texts) =
      ap (λ (l : List (Text × deps.Vector)). (t, embed t) ∷ l) (paired-map texts)

  -- If each batch that the embedding API answers is answered with the vectors of its texts in
  -- order, then a document that is embedded in batches has each of its chunks, in order, with the
  -- vector of that chunk, as if the texts had been embedded one by one.
  pub embeddings-embed_document :
      (file : ConvertedFile) (chunks : ChunksDocument) (result : EmbeddingsFile deps.Vector)
      (w : deps.env.World)
      → (embed_document deps fs config input_path output_path file chunks w).0 ≡ ok result
      → result.embeddings ≡ map (λ (t : Text). (t, embed t)) chunks.text
  embeddings-embed_document file chunks result w h =
      by_creds (credentials_of deps fs config input_path output_path) refl
    where
      by_vectors :
          (creds : ModelCredentials) (format : Text) (slices : List (List Text))
          → credentials_of deps fs config input_path output_path ≡ ok creds
          → encoding_format deps fs config input_path output_path ≡ ok format
          → batches (length chunks.text) config.batch_size chunks.text ≡ some slices
          → (r : Result (List deps.Vector))
          → (embed_batches deps fs config input_path output_path creds format slices [] w).0 ≡ r
          → result.embeddings ≡ map (λ (t : Text). (t, embed t)) chunks.text
      by_vectors creds format slices e f g (err x) k = absurd (ground (arith, e, f, g, k))
      by_vectors creds format slices e f g (ok vectors) k = ground (
        arith,
        e,
        f,
        g,
        k,
        embed_batches_lem creds format slices [] vectors w k
            ∙ ap (λ (l : List Text). map embed l)
                (concat-batches (length chunks.text) config.batch_size chunks.text slices g),
        paired-map chunks.text,
      )

      by_slices :
          (creds : ModelCredentials) (format : Text)
          → credentials_of deps fs config input_path output_path ≡ ok creds
          → encoding_format deps fs config input_path output_path ≡ ok format
          → (o : Option (List (List Text)))
          → batches (length chunks.text) config.batch_size chunks.text ≡ o
          → result.embeddings ≡ map (λ (t : Text). (t, embed t)) chunks.text
      by_slices creds format e f none g = absurd (ground (arith, e, f, g))
      by_slices creds format e f (some slices) g =
          by_vectors creds format slices e f g
            (embed_batches deps fs config input_path output_path creds format slices [] w).0 refl

      by_format :
          (creds : ModelCredentials)
          → credentials_of deps fs config input_path output_path ≡ ok creds
          → (r : Result Text) → encoding_format deps fs config input_path output_path ≡ r
          → result.embeddings ≡ map (λ (t : Text). (t, embed t)) chunks.text
      by_format creds e (err x) f = absurd (ground (arith, e, f))
      by_format creds e (ok format) f =
          by_slices creds format e f (batches (length chunks.text) config.batch_size chunks.text)
            refl

      by_creds :
          (r : Result ModelCredentials)
          → credentials_of deps fs config input_path output_path ≡ r
          → result.embeddings ≡ map (λ (t : Text). (t, embed t)) chunks.text
      by_creds (err x) e = absurd (ground (arith, e))
      by_creds (ok creds) e =
          by_format creds e (encoding_format deps fs config input_path output_path) refl
