-- ===== src/Credentials/Tests.antt =====
-- The theorem at a concrete input: a library that parses the document of the credentials, or that
-- of the claim, whichever its first byte tells.
use nivalo_esp.Credentials.{
  RuntimeCredentials, is_valid_credentials, is_valid_attempt, Json, serialize_credentials,
  serialize_pending, parse_credentials, parse_pending, credentials_document, attempt_document,
}
use nivalo_esp.Credentials.Encoding.{parse-serialize}
use nivalo_esp.Credentials.Example.{example, example_attempt}
use nivalo_esp.Common.{◌==◌, ◌≡◌, refl, arith, [], ◌∷◌, codes, some, length, get_or, if◌then◌else◌}

abbrev claimed : RuntimeCredentials
claimed = record example { claim_code_sha256 = codes "0" }

abbrev two_documents : Json
two_documents = record {
  print = λ d. length d ∷ [];
  parse = λ t.
      if get_or t 0 0 == length (attempt_document example_attempt)
      then some (attempt_document example_attempt)
      else some (credentials_document claimed);
}

parse-serialize_example :
    (parse_credentials two_documents (serialize_credentials two_documents claimed) example
      ≡ (is_valid_credentials claimed, claimed))
    × (parse_pending two_documents (serialize_pending two_documents example_attempt) example_attempt
        ≡ (is_valid_attempt example_attempt, example_attempt))
unfolding credentials_document attempt_document
parse-serialize_example =
    parse-serialize two_documents claimed example example_attempt example_attempt refl refl
      (omega arith)
