-- ===== src/Controller/Flags.antt =====
-- The two readers of Boolean annotations, `annotationBool` in internal/controller/config.go and `parseBool` in
-- internal/translator/translate.go.
use ingress_nginx_gateway_br.Common.{◌≡◌, arith, contains}
use ingress_nginx_gateway_br.Text.{Text, text_key}
use ingress_nginx_gateway_br.Translate.Values.{parse_bool, parse_nginx_bool}
use ingress_nginx_gateway_br.Controller.Selection.{annotation_bool}

-- The controller and the translator read the same truth value from every annotation.
pub annotation_bool-parse_bool : (value : Text) → annotation_bool value ≡ parse_bool value
unfolding annotation_bool parse_bool parse_nginx_bool contains
annotation_bool-parse_bool value = ground arith
