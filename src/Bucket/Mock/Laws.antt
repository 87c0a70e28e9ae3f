-- ===== src/Bucket/Mock/Laws.antt =====
-- What a mocked object looks like before its upload, after it, and after its deletion.
use blockstorageingestor.Prelude.{
  ℕ, ◌≡◌, refl, ap, ◌∙◌, Bool, true, false, Option, none, some, List, [], ◌∷◌, arith, ◌==◌, nat_eq,
  Str, codes, str_beq, str_eq, str_beq_refl,
}
use blockstorageingestor.Errors.{Error}
use blockstorageingestor.Objstore.{Reader}
use blockstorageingestor.Bucket.Testify.{
  nil_value, a_getter, Answer, only_error, both, Expectation, Testify, Outcome, returns, panics,
  does_not_exist, load, forget, error_0, got, attributes_0, reader_of,
}
use blockstorageingestor.Bucket.Mock.{
  ClientMock, called, upload, delete, get_unless, get, attributes, mock_upload, mock_delete,
  mock_object, mock_get, mock_get_require_upload,
}

-- The documented search of testify: a call is matched by its method and its arguments, an earlier
-- expectation is met first, and one without a limit is met again and again.
pub record IsTestify {Y : Type 0} (L : Testify Y) : Type 0 where
  pub called-on :
      (m : L.Mock) (e : Expectation Y)
      → (L.called m e.method e.name).0 ≡ none
      → (L.called (L.on m e) e.method e.name).0 ≡ some e
  pub called-other :
      (m : L.Mock) (e : Expectation Y) (method name : Str)
      → (method == e.method) ≡ false
      → (L.called (L.on m e) method name).0 ≡ (L.called m method name).0
  pub called-again :
      (m : L.Mock) (e : Expectation Y) (method name other another : Str)
      → (L.called m method name).0 ≡ some e
      → e.times ≡ none
      → (L.called (L.called m method name).1 other another).0 ≡ (L.called m other another).0

load-forget : (entries : List (Str × Bool)) (name : Str) → load (forget entries name) name ≡ none
load-forget [] name = refl
load-forget ((n, b) ∷ entries) name = ground (arith, load-forget entries name)

module _ {Y : Type 0} (L : Testify Y) (W : IsTestify L) where
  -- the mock answers a method on a name in that way, however often
  abbrev pub Answers : L.Mock → Str → Str → Answer → Type 0
  Answers m method name a =
      (e : Expectation Y) × ((L.called m method name).0 ≡ some e)
      × (e.answer ≡ a)
      × (e.times ≡ none)

  abbrev pub Unknown : L.Mock → Str → Type 0
  Unknown m name = (method : Str) → (L.called m method name).0 ≡ none

  Answers-called :
      (m : L.Mock) (method name other another : Str) (a b : Answer)
      → Answers m method name a
      → Answers m other another b
      → Answers (L.called m method name).1 other another b
  Answers-called m method name other another a b (e, p, _, q) (f, r, s, t) =
      (f, W.called-again m e method name other another p q ∙ r, s, t)

  called-Answers :
      {A : Type 0} (read : Answer → Outcome A) (method name : Str) (m : ClientMock L) (a : Answer)
      → Answers m.mock method name a
      → called L read method name m ≡ (read a, record m { mock = (L.called m.mock method name).1 })
  unfolding called
  called-Answers read method name m a (e, p, q, _) = rw (p, called, q) refl

  Answers-on :
      (m : L.Mock) (x : Expectation Y) (other another : Str) (b : Answer)
      → (other == x.method) ≡ false
      → Answers m other another b
      → Answers (L.on m x) other another b
  Answers-on m x other another b h (e, p, q, r) = (e, W.called-other m x other another h ∙ p, q, r)

  on-Answers :
      (m : L.Mock) (x : Expectation Y)
      → x.times ≡ none
      → (L.called m x.method x.name).0 ≡ none
      → Answers (L.on m x) x.method x.name x.answer
  on-Answers m x t h = (x, W.called-on m x h, refl, t)

  module _ (name : Str) (c : ℕ) (content : Str) (e u d : Option Error) (m : ClientMock L)
      (fresh : Unknown m.mock name) where
    -- the double of an object that is there once it has been uploaded
    abbrev pub prepared : ClientMock L
    prepared =
        mock_get_require_upload L name (c ∷ content) e
          (mock_upload L name u (mock_delete L name d m))

    abbrev answer : Answer
    answer = both (a_getter (some (reader_of (c ∷ content))) e) none

    prepared-delete : Answers prepared.mock (codes "Delete") name (only_error d)
    unfolding mock_get_require_upload mock_get mock_object str_beq
    prepared-delete =
        let del = codes "Delete" in
        Answers-on _ _ del name _ refl (
          Answers-on _ _ del name _ refl (
            Answers-on _ _ del name _ refl
              (Answers-on _ _ del name _ refl (on-Answers _ _ refl (fresh del)))))

    prepared-upload : Answers prepared.mock (codes "Upload") name (only_error u)
    unfolding mock_get_require_upload mock_get mock_object str_beq
    prepared-upload =
        let up = codes "Upload" in
        Answers-on _ _ up name _ refl (
          Answers-on _ _ up name _ refl (
            Answers-on _ _ up name _ refl
              (on-Answers _ _ refl (W.called-other _ _ up name refl ∙ fresh up))))

    prepared-get : Answers prepared.mock (codes "Get") name answer
    unfolding mock_get_require_upload mock_get mock_object str_beq
    prepared-get =
        let gets = codes "Get" in
        on-Answers _ _ refl (
          W.called-other _ _ gets name refl
          ∙ W.called-other _ _ gets name refl
          ∙ W.called-other _ _ gets name refl
          ∙ W.called-other _ _ gets name refl
          ∙ fresh gets)

    after_upload : ClientMock L
    after_upload = record {
      mock = (L.called prepared.mock (codes "Upload") name).1;
      uploaded = (name, true) ∷ (name, false) ∷ m.uploaded;
    }

    after_delete : ClientMock L
    after_delete = record {
      mock = (L.called (after_upload).mock (codes "Delete") name).1;
      uploaded = forget ((name, true) ∷ (name, false) ∷ m.uploaded) name;
    }

    upload-prepared : (r : Reader) → upload L prepared name r ≡ (returns u, after_upload)
    unfolding upload mock_get_require_upload mock_get after_upload
    upload-prepared r =
        rw (str_beq_refl name) (called-Answers error_0 (codes "Upload") name _ _ prepared-upload)

    delete-after_upload : delete L after_upload name ≡ (returns d, after_delete)
    unfolding delete after_upload after_delete
    delete-after_upload = called-Answers error_0 (codes "Delete") name _ _ (
        Answers-called prepared.mock (codes "Upload") name (codes "Delete") name _ _ prepared-upload
          prepared-delete)

    get-prepared : (get L prepared name).0 ≡ returns (none, does_not_exist)
    unfolding get get_unless mock_get_require_upload mock_get
    get-prepared = rw (str_beq_refl name) refl

    get-after_upload : (get L after_upload name).0 ≡ returns (some (reader_of (c ∷ content)), e)
    unfolding get get_unless after_upload
    get-after_upload = rw (str_beq_refl name) (
        ap (λ x. x.0)
          (called-Answers got (codes "Get") name (after_upload) answer (
            Answers-called prepared.mock (codes "Upload") name (codes "Get") name _ _
              prepared-upload prepared-get)))

    get-after_delete : (get L after_delete name).0 ≡ returns (some (reader_of (c ∷ content)), e)
    unfolding get get_unless after_delete after_upload
    get-after_delete = rw (load-forget ((name, true) ∷ (name, false) ∷ m.uploaded) name) (
        ap (λ x. x.0)
          (called-Answers got (codes "Get") name (after_delete) answer (
            Answers-called after_upload.mock (codes "Delete") name (codes "Get") name _ _
              (Answers-called prepared.mock (codes "Upload") name (codes "Delete") name _ _
                prepared-upload prepared-delete)
              (Answers-called prepared.mock (codes "Upload") name (codes "Get") name _ _
                prepared-upload prepared-get))))

    -- With testify's search, over a double that knows nothing of the name yet: an object with some
    -- content that is mocked to need its upload does not exist before the upload, and has its
    -- content after it. A delete that is mocked too does not take it away: it is got as before.
    pub mock_get_require_upload_lem :
        (r : Reader)
        → ((get L prepared name).0 ≡ returns (none, does_not_exist))
          × ((upload L prepared name r).0 ≡ returns u)
          × ((get L (upload L prepared name r).1 name).0
              ≡ returns (some (reader_of (c ∷ content)), e))
          × ((delete L (upload L prepared name r).1 name).0 ≡ returns d)
          × ((get L (delete L (upload L prepared name r).1 name).1 name).0
              ≡ returns (some (reader_of (c ∷ content)), e))
    mock_get_require_upload_lem r =
        rw (upload-prepared r, delete-after_upload)
          (get-prepared, refl, get-after_upload, refl, get-after_delete)

  -- The attributes of an object that is mocked as missing cannot be asked for: the call panics.
  pub missing_attributes :
      (name : Str) (e : Option Error) (m : ClientMock L)
      → Unknown m.mock name
      → (attributes L (mock_get L name [] e m) name).0 ≡ panics
  unfolding attributes mock_get mock_object str_beq
  missing_attributes name e m fresh =
      let asked : Answers (mock_get L name [] e m).mock (codes "Attributes") name
          (both nil_value does_not_exist) =
        on-Answers _ _ refl (
          W.called-other _ _ (codes "Attributes") name refl
          ∙ W.called-other _ _ (codes "Attributes") name refl
          ∙ fresh (codes "Attributes")) in
      ap (λ x. x.0) (called-Answers attributes_0 (codes "Attributes") name _ _ asked)
