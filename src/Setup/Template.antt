-- ===== src/Setup/Template.antt =====
-- init.rs: the text of the configuration that `run` writes, and of the unit that
-- `install_systemd_service` writes.
use loophole.Base.{List, [], ◌∷◌, ◌++◌, if◌then◌else◌}
use loophole.Text.{Text, codes, ◌==◌}

abbrev pub default_config_path : Text
default_config_path = codes "/etc/loophole/server.toml"

abbrev pub service_path : Text
service_path = codes "/etc/systemd/system/loophole.service"

abbrev pub quoted : Text → Text
quoted s = codes "\"" ++ (s ++ codes "\"")

-- The lines of the configuration.
unfoldable pub config_lines : Text → Text → Text → List Text
config_lines domain token email =
    codes "# Loophole Server Configuration"
    ∷ codes "version = 1"
    ∷ codes ""
    ∷ codes "[server]"
    ∷ codes "# Base domain for tunnels (e.g., tunnel.example.com)"
    ∷ codes "# Clients will get subdomains like myapp.tunnel.example.com"
    ∷ (codes "domain = " ++ quoted domain)
    ∷ codes ""
    ∷ codes "# HTTP port - used for ACME challenges and HTTP->HTTPS redirect"
    ∷ codes "# Default: 80 (required for Let's Encrypt)"
    ∷ codes "# http_port = 80"
    ∷ codes ""
    ∷ codes "# HTTPS port - used for tunnel traffic"
    ∷ codes "# Default: 443"
    ∷ codes "# https_port = 443"
    ∷ codes ""
    ∷ (codes "[tokens." ++ (token ++ codes "]"))
    ∷ codes "# Token with admin privileges (can access admin API)"
    ∷ codes "admin = true"
    ∷ codes ""
    ∷ codes "# Example: non-admin token"
    ∷ codes "# [tokens.tk_example123]"
    ∷ codes "# admin = false"
    ∷ codes ""
    ∷ codes "[limits]"
    ∷ codes "# Timeout for proxied requests (seconds)"
    ∷ codes "# request_timeout_secs = 30"
    ∷ codes ""
    ∷ codes "# Maximum request body size (bytes)"
    ∷ codes "# max_request_body_bytes = 10485760"
    ∷ codes ""
    ∷ codes "# Disconnect tunnels idle for this long (seconds)"
    ∷ codes "# idle_tunnel_timeout_secs = 3600"
    ∷ codes ""
    ∷ codes "[https]"
    ∷ codes "# HTTPS configuration with automatic Let's Encrypt certificates"
    ∷ (codes "email = " ++ quoted email)
    ∷ codes ""
    ∷ codes "# Directory to store certificates"
    ∷ codes "certs_dir = \"/var/lib/loophole/certs\""
    ∷ codes ""
    ∷ codes "# Use Let's Encrypt staging for testing (avoids rate limits)"
    ∷ codes "# staging = false"
    ∷ []

-- Each line with its line feed.
unfoldable pub unlines : List Text → Text
unlines [] = []
unlines (line ∷ lines) = line ++ 10 ∷ unlines lines

unfoldable pub config_text : Text → Text → Text → Text
unfolding config_lines unlines
config_text domain token email = unlines (config_lines domain token email)

abbrev pub server_command : Text → Text → Text
server_command binary config_path =
    if config_path == default_config_path
    then binary ++ codes " server"
    else binary ++ (codes " server --config " ++ config_path)

unfoldable pub service_text : Text → Text → Text
unfolding unlines
service_text binary config_path = unlines (
    codes "[Unit]"
    ∷ codes "Description=Loophole Tunnel Server"
    ∷ codes "After=network.target"
    ∷ codes ""
    ∷ codes "[Service]"
    ∷ codes "Type=simple"
    ∷ (codes "ExecStart=" ++ server_command binary config_path)
    ∷ codes "Restart=always"
    ∷ codes "RestartSec=5"
    ∷ codes ""
    ∷ codes "[Install]"
    ∷ codes "WantedBy=multi-user.target"
    ∷ [])
