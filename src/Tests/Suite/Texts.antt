-- ===== src/Tests/Suite/Texts.antt =====
-- config/listener.rs, config/aws_sigv4.rs and cli.rs, `mod tests`.
use http_dragonfly.Prelude.{
  ℕ, String, Bool, true, false, ◌≡◌, ◌≢◌, refl, Option, none, some, List, [], ◌∷◌, All, member,
  if◌then◌else◌,
}
use http_dragonfly.Prelude.Text.{trim, starts_with, contains}
use http_dragonfly.Platform.{Platform}
use http_dragonfly.Platform.Sample.{Headers, sample}
use http_dragonfly.Config.Yaml.{Value, list_of, ◌>>=◌}
use http_dragonfly.Config.Decode.{decode_aws, method_of, variant}
use http_dragonfly.Tests.Suite.Configs.{reader, text, list, map_of, ◌is◌}
use http_dragonfly.Config.Types.{
  AwsSigV4Config, HttpMethod, get, post, put, patch, delete, options, head,
}
use http_dragonfly.Config.Listen.{Parsed, parsed, refused, from_str, any_ip}
use http_dragonfly.Config.Listener
use http_dragonfly.Config.Validate.{pass, validate_aws}
use http_dragonfly.Cli.{
  accepted, rejected, invalid_mask, port_out_of_range, unable_to_parse, parse_health_check_port,
  parse_env_mask, default_cli,
}

abbrev ListenOnTest : Type 0
ListenOnTest =
    (Listener.default_listen_on ≡ record { ip = any_ip; port = 8080 })
    × (from_str "1.2.3.4:8888"
        ≡ parsed (record { ip = record { a = 1; b = 2; c = 3; d = 4 }; port = 8888 }))
    × (from_str "0.0.0.0:8888" ≡ parsed (record { ip = any_ip; port = 8888 }))
    × (from_str ":8888" ≡ parsed (record { ip = any_ip; port = 8888 }))
    × (from_str "*:8888" ≡ parsed (record { ip = any_ip; port = 8888 }))

listen_on : ListenOnTest
unfolding from_str
listen_on = (refl, refl, refl, refl, refl)

abbrev is_refused : {A : Type 0} → Parsed A → Bool
is_refused (parsed a) = false
is_refused (refused e) = true

abbrev wrong_str : List String
wrong_str =
    "" ∷ ":" ∷ "1.2.3.4" ∷ "1.2.3.4:" ∷ "111.222.333.444:8080" ∷ "*:0" ∷ "*:65536" ∷ "*:123456"
    ∷ "*:str" ∷ "google.com:8080" ∷ []

abbrev WrongListenOn : Type 0
WrongListenOn = All (λ s. is_refused (from_str s) ≡ true) wrong_str

wrong_listen_on : WrongListenOn
unfolding from_str
wrong_listen_on = (refl, (refl, (refl, (refl, (refl, (refl, (refl, (refl, (refl, (refl, tt))))))))))

abbrev methods_of : List (Value String) → Option (List HttpMethod)
methods_of vs = list_of (variant reader method_of) reader (list vs)

abbrev all_methods : List (Value String) → List (Value String)
all_methods more =
    text "GET"
    ∷ text "POST"
    ∷ text "PUT"
    ∷ text "PATCH"
    ∷ text "DELETE"
    ∷ text "OPTIONS"
    ∷ text "HEAD"
    ∷ more

abbrev HttpMethodTest : Type 0
HttpMethodTest =
    (methods_of (all_methods []) ≡ some (get ∷ post ∷ put ∷ patch ∷ delete ∷ options ∷ head ∷ []))
    × (methods_of (all_methods (text "UPDATE" ∷ [])) ≡ none)

http_method : HttpMethodTest
unfolding method_of ◌>>=◌
http_method = (refl, refl)

abbrev minimal : AwsSigV4Config
minimal = record { service = "s3"; region = none; role_arn = none }

abbrev full : AwsSigV4Config
full = record {
  service = "execute-api";
  region = some "eu-west-1";
  role_arn = some "arn:aws:iam::123456789012:role/my-role";
}

abbrev AwsSigV4Test : Type 0
AwsSigV4Test =
    (decode_aws reader (map_of ("service" is text "s3" ∷ [])) ≡ some minimal)
    × (validate_aws minimal ≡ pass)
    × (decode_aws reader (
          map_of (
            "service" is text "execute-api"
            ∷ "region" is text "eu-west-1"
            ∷ "role_arn" is text "arn:aws:iam::123456789012:role/my-role"
            ∷ []))
        ≡ some full)
    × (validate_aws full ≡ pass)
    × (decode_aws reader (map_of ("service" is text "" ∷ []))
        ≡ some (record minimal { service = "" }))
    × (validate_aws (record minimal { service = "" }) ≢ pass)
    × (decode_aws reader (map_of ("service" is text "s3" ∷ "role_arn" is text "not-an-arn" ∷ []))
        ≡ some (record minimal { role_arn = some "not-an-arn" }))
    × (validate_aws (record minimal { role_arn = some "not-an-arn" }) ≢ pass)
    × (decode_aws reader (map_of ("service" is text "s3" ∷ "access_key" is text "AKIA..." ∷ []))
        ≡ none)

aws_sigv4 : AwsSigV4Test
unfolding decode_aws ◌>>=◌ validate_aws trim starts_with contains
aws_sigv4 = (refl, refl, refl, refl, refl, λ e. cc e, refl, λ e. cc e, refl)

-- What the regex crate says of the masks of the tests.
abbrev regexes : Platform Headers String ℕ
regexes = record sample {
  regex = λ r. if member r ("\\1" ∷ "[1" ∷ "**" ∷ []) then none else some (λ s. true);
}

abbrev EnvMaskTest : Type 0
EnvMaskTest =
    (parse_env_mask regexes default_cli.env_mask ≡ accepted "^HTTP_ENV_[a-zA-Z0-9_]+$")
    × (parse_env_mask regexes ".*" ≡ accepted ".*")
    × (parse_env_mask regexes " .* " ≡ accepted ".*")
    × (parse_env_mask regexes "^something_[0-9]{1,32}-.+$" ≡ accepted "^something_[0-9]{1,32}-.+$")
    × (parse_env_mask regexes "" ≡ accepted ".+")
    × (parse_env_mask regexes "   " ≡ accepted ".+")
    × (parse_env_mask regexes "*" ≡ accepted ".+")
    × (parse_env_mask regexes " * " ≡ accepted ".+")
    × (parse_env_mask regexes "\\1" ≡ rejected invalid_mask)
    × (parse_env_mask regexes "  \\1   " ≡ rejected invalid_mask)
    × (parse_env_mask regexes "[1" ≡ rejected invalid_mask)
    × (parse_env_mask regexes "**" ≡ rejected invalid_mask)

env_mask : EnvMaskTest
unfolding parse_env_mask
env_mask = (refl, refl, refl, refl, refl, refl, refl, refl, refl, refl, refl, refl)

abbrev HealthCheckPortTest : Type 0
HealthCheckPortTest =
    (parse_health_check_port "123" ≡ accepted 123)
    × (parse_health_check_port "65535" ≡ accepted 65535)
    × (parse_health_check_port "0" ≡ rejected port_out_of_range)
    × (parse_health_check_port "65536" ≡ rejected (unable_to_parse "65536"))
    × (parse_health_check_port "qwerty" ≡ rejected (unable_to_parse "qwerty"))

health_check_port : HealthCheckPortTest
unfolding parse_health_check_port
health_check_port = (refl, refl, refl, refl, refl)
